-- ===== src/Store/Page/Demands.antt =====
-- Demands and pauses in a load of store/pageStore.ts.
use hydrui.Base.{
  ℕ, ◌≡◌, refl, sym, ap, ◌∙◌, Bool, true, false, ◌||◌, List, [], ◌∷◌, ◌++◌, arith, length, has,
  total, Distinct, filter, is_empty, if◌then◌else◌, total-eq_of_same, has-append, outside,
  length-append,
}
use hydrui.Store.Page.{PageState, FileMetadata}
use hydrui.Store.Page.Chunks.{chunk_at, concat_chunks}
use hydrui.Store.Page.Load.{
  Loader, Place, fetching, pausing, ready, done, is_current, wake, set_is_loading_paused,
}
use hydrui.Store.Page.Controller.{front, reprioritize_chunks}
use hydrui.Store.Page.Front.{has-front, front-Distinct}
use hydrui.Store.Page.Runs.{IsLoading, in_flight, open_chunks}
use hydrui.Store.Page.Complete.{Loads-kept, Loads-same, wake-IsLoading}

front-nil : (chunks : List ℕ) → front chunks [] ≡ []
unfolding front filter has
front-nil [] = refl
front-nil (c ∷ cs) = front-nil cs

-- Another queue of the same chunks.
module _ (p : Place) (q r : List ℕ) (same : (c : ℕ) → has c r ≡ has c q)
    (distinct : Distinct r) where
  has-queue : (c : ℕ) → has c (in_flight p ++ r) ≡ has c (in_flight p ++ q)
  has-queue c =
      has-append c (in_flight p) r
      ∙ ap (λ b. has c (in_flight p) || b) (same c)
      ∙ sym (has-append c (in_flight p) q)

  queue-Distinct : Distinct (in_flight p ++ q) → Distinct (in_flight p ++ r)
  queue-Distinct d = of_place p d
    where
      of_place : (p : Place) → Distinct (in_flight p ++ q) → Distinct (in_flight p ++ r)
      of_place (fetching c) d = (same c ∙ d.0, distinct)
      of_place pausing d = distinct
      of_place ready d = distinct
      of_place done d = distinct

tail-Distinct : (p : Place) (q : List ℕ) → Distinct (in_flight p ++ q) → Distinct q
tail-Distinct (fetching c) q d = d.1
tail-Distinct pausing q d = d
tail-Distinct ready q d = d
tail-Distinct done q d = d

module _ (ids : List ℕ) (meta : ℕ → FileMetadata) where
  pub reprioritize_chunks-IsLoading :
      (chunks : List ℕ) (l : Loader) (st : PageState)
      → Distinct chunks
      → IsLoading ids meta l st
      → IsLoading ids meta (reprioritize_chunks chunks l st).0 (reprioritize_chunks chunks l st).1
  unfolding reprioritize_chunks is_current
  reprioritize_chunks-IsLoading chunks l st d h =
      let queue = front chunks l.file_id_chunks in
      let q_distinct =
        front-Distinct chunks l.file_id_chunks d
          (tail-Distinct l.place l.file_id_chunks h.loads.distinct) in
      let same = λ (c : ℕ). has-front c chunks l.file_id_chunks in
      let os = in_flight l.place ++ queue in
      let os_distinct =
        queue-Distinct l.place l.file_id_chunks queue same q_distinct h.loads.distinct in
      let has_os = has-queue l.place l.file_id_chunks queue same q_distinct in
      let l' = record l {
        demand_set =
            l.demand_set
            ++ filter (outside l.demand_set) (filter (λ c. has c l.file_id_chunks) chunks);
        file_id_chunks = queue;
      } in
      let kept : IsLoading ids meta l' st = record {
        loads = Loads-kept ids meta os l l' st st refl refl refl refl refl refl refl (
            Loads-same ids meta (open_chunks l) os l st os_distinct
              (total-eq_of_same _ os (open_chunks l) os_distinct h.loads.distinct has_os) has_os
              h.loads);
        ended = λ e. ap (front chunks) (h.ended e) ∙ front-nil chunks;
        rousable = h.rousable;
      } in
      elim (is_empty l'.demand_set)
        as (λ b.
          IsLoading ids meta (if b then (l', st) else wake l' st).0
            (if b then (l', st) else wake l' st).1) [
              | true ↦ kept
              | false ↦ wake-IsLoading ids meta l' st kept
            ]

  pub set_is_loading_paused-IsLoading :
      (b : Bool) (l : Loader) (st : PageState)
      → IsLoading ids meta l st
      → IsLoading ids meta (set_is_loading_paused b l st).0 (set_is_loading_paused b l st).1
  unfolding set_is_loading_paused is_current
  set_is_loading_paused-IsLoading b l st h = of_flag b
    where
      kept : (b : Bool) → IsLoading ids meta l (record st { is_loading_paused = b })
      kept b = record {
        loads =
            Loads-kept ids meta _ l l st (record st { is_loading_paused = b }) refl refl refl refl
              refl refl refl h.loads;
        ended = h.ended;
        rousable = h.rousable;
      }

      of_flag :
          (b : Bool)
          → IsLoading ids meta (set_is_loading_paused b l st).0 (set_is_loading_paused b l st).1
      of_flag true = kept true
      of_flag false = wake-IsLoading ids meta l _ (kept false)

  pub total-concat_chunks :
      (cs : List ℕ) → total (λ c. length (chunk_at ids c)) cs ≡ length (concat_chunks ids cs)
  unfolding total concat_chunks
  total-concat_chunks [] = refl
  total-concat_chunks (c ∷ cs) =
      omega (arith, total-concat_chunks cs, length-append (chunk_at ids c) (concat_chunks ids cs))
