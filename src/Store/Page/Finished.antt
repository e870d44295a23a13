-- ===== src/Store/Page/Finished.antt =====
-- The runs of a load of store/pageStore.ts, from its beginning to its end.
use hydrui.Base.{
  ℕ, zero, suc, ◌+◌, ◌*◌, ◌/◌, ◌≤◌, ◌≡◌, refl, sym, ap, subst, ◌∙◌, Bool, true, false, not, Option,
  none, some, List, [], ◌++◌, map, arith, length, has, total, Distinct, ◌⊎◌, inl, inr, get_elem?,
  get_elem?-lt-length, get_elem?-of_lt, is_empty, if◌then◌else◌, Text,
}
use hydrui.Store.Page.{PageState, FileMetadata, abort_current}
use hydrui.Store.Page.Chunks.{chunk_at, split}
use hydrui.Store.Page.Indexed.{split-concat_chunks, has-split}
use hydrui.Store.Page.Load.{
  Loader, ready, done, proceed, is_current, filled, update_with_file_ids, is_active, new_loader,
  opened, emptied,
}
use hydrui.Store.Page.Controller.{reprioritize, get_chunks_for_file_ids}
use hydrui.Store.Page.Front.{get_chunks_for_file_ids-Distinct}
use hydrui.Store.Page.Slots.{filled_ext, filled-lt-length}
use hydrui.Store.Page.Runs.{
  Loads, IsLoading, in_flight, open_chunks, SameLoad, Run, began, answered, went_on, demanded,
  paused, other,
}
use hydrui.Store.Page.Complete.{Loads-kept, proceed-IsLoading, respond-IsLoading}
use hydrui.Store.Page.Demands.{
  reprioritize_chunks-IsLoading, set_is_loading_paused-IsLoading, total-concat_chunks,
}

-- `updateWithFileIds` begins a load only where none of its three tests stops it.
begun-cases :
    (a b c : Bool) (x y z : PageState) (p : Loader × PageState) {l : Loader} {t : PageState}
    → ◌≡◌ {A = Option Loader × PageState}
        (if a then (none, x) else if b then (none, y) else if c then (some p.0, p.1) else (none, z))
        (some l, t)
    → (c ≡ true) × (p.0 ≡ l) × (p.1 ≡ t)
begun-cases true b c x y z p e = cc
begun-cases false true c x y z p e = cc
begun-cases false false true x y z p e = (refl, cc, cc)
begun-cases false false false x y z p e = cc

length-le_of_filled {ℓ} :
    {A : Type ℓ} (f : ℕ → A) (xs : List (Option A)) (ids : List ℕ)
    → ((p a : ℕ) → get_elem? ids p ≡ some a → filled xs p ≡ some (f a))
    → length ids ≤ length xs
length-le_of_filled f xs ids full = up_to (length ids) refl
  where
    up_to : (n : ℕ) → length ids ≡ n → length ids ≤ length xs
    up_to zero e = omega arith
    up_to (suc n) e =
        let (a, at) = get_elem?-of_lt ids n (omega arith) in
        omega (arith, filled-lt-length xs n (f a) (full n a at))

module _ (ids : List ℕ) (key : Text) (request_id : ℕ) (meta : ℕ → FileMetadata) where
  new_loader-Loads :
      (threshold : ℕ) (s : PageState)
      → is_current (new_loader ids key request_id) s ≡ true
      → Loads ids meta
          (split ids).chunks
          (new_loader ids key request_id)
          (opened threshold ids request_id s)
  unfolding new_loader opened is_current
  new_loader-Loads threshold s current =
      let (whole, distinct, _) = split-concat_chunks ids in
      record {
        index = refl;
        chunk = refl;
        current = current;
        promises = λ c. refl;
        distinct = distinct;
        covered = λ p a at. inl (has-split ids p (get_elem?-lt-length ids p at));
        short = omega arith;
        counted = omega (arith, total-concat_chunks ids meta (split ids).chunks, ap length whole);
        shown_count = refl;
      }

  opened-IsLoading :
      (threshold : ℕ) (s : PageState) {l : Loader} {t : PageState}
      → update_with_file_ids threshold ids key request_id s ≡ (some l, t)
      → IsLoading ids meta l t
  unfolding update_with_file_ids
  opened-IsLoading threshold s {l = m} e =
      let l = new_loader ids key request_id in
      let stopped = abort_current s in
      let shown = opened threshold ids request_id stopped in
      let (current, same_l, same_t) =
        begun-cases (not (is_active key s.active_page_key)) (is_empty ids) (is_current l stopped) s
          (emptied stopped) stopped (proceed l shown) e in
      subst (λ t. IsLoading ids meta m t) same_t
        (subst (λ k. IsLoading ids meta k (proceed l shown).1) same_l
          (proceed-IsLoading ids meta l shown (new_loader-Loads threshold stopped current)))

  reprioritize-IsLoading :
      (demand : List ℕ) (l : Loader) (st : PageState)
      → IsLoading ids meta l st
      → IsLoading ids meta (reprioritize demand l st).0 (reprioritize demand l st).1
  unfolding reprioritize
  reprioritize-IsLoading demand l st h =
      reprioritize_chunks-IsLoading ids meta (get_chunks_for_file_ids l demand) l st
        (get_chunks_for_file_ids-Distinct l demand) h

  went_on-IsLoading :
      (l : Loader) (st : PageState)
      → l.place ≡ ready
      → IsLoading ids meta l st
      → IsLoading ids meta (proceed l st).0 (proceed l st).1
  went_on-IsLoading l st e h =
      proceed-IsLoading ids meta l st
        (subst (λ p. Loads ids meta (in_flight p ++ l.file_id_chunks) l st) e h.loads)

  other-IsLoading :
      (l : Loader) (s t : PageState)
      → SameLoad s t
      → IsLoading ids meta l s
      → IsLoading ids meta l t
  unfolding is_current
  other-IsLoading l s t same h = record {
    loads =
        Loads-kept ids meta _ l l s t refl refl refl refl (cc (same.page, same.request)) same.files
          same.count h.loads;
    ended = h.ended;
    rousable = h.rousable;
  }

  module _ (honest : (a : ℕ) → (meta a).file_id ≡ a) (distinct : Distinct ids) where
    pub Run-IsLoading :
        {l : Loader} {st : PageState} → Run ids key request_id meta l st → IsLoading ids meta l st
    Run-IsLoading (began threshold s e) = opened-IsLoading threshold s e
    Run-IsLoading (answered c {l} {s} r e) =
        respond-IsLoading ids meta honest distinct c l s e (Run-IsLoading r)
    Run-IsLoading (went_on {l} {s} r e) = went_on-IsLoading l s e (Run-IsLoading r)
    Run-IsLoading (demanded demand {l} {s} r) = reprioritize-IsLoading demand l s (Run-IsLoading r)
    Run-IsLoading (paused b {l} {s} r) =
        set_is_loading_paused-IsLoading ids meta b l s (Run-IsLoading r)
    Run-IsLoading (other {l} {s} t r same) = other-IsLoading l s t same (Run-IsLoading r)

    -- A load that has ended has filled every place, whatever was demanded or paused in between.
    pub Run-complete :
        {l : Loader} {st : PageState}
        → Run ids key request_id meta l st
        → l.place ≡ done
        → (st.loaded_files ≡ map (λ a. some (meta a)) ids) × (st.loaded_file_count ≡ length ids)
    unfolding has total
    Run-complete {l} {st} r e = of_loading (Run-IsLoading r)
      where
        filled_of :
            open_chunks l ≡ []
            → (p a : ℕ)
            → (has (p / 256 * 256) (open_chunks l) ≡ true)
              ⊎ (filled st.loaded_files p ≡ some (meta a))
            → filled st.loaded_files p ≡ some (meta a)
        filled_of e p a (inl m) =
            let absurdity : has (p / 256 * 256) [] ≡ true = ap (has _) (sym e) ∙ m in cc
        filled_of e p a (inr f) = f

        counted_of :
            {n : ℕ}
            → open_chunks l ≡ []
            → n + total (λ c. length (chunk_at ids c)) (open_chunks l) ≡ length ids
            → n ≡ length ids
        counted_of {n} e h =
            let nothing : total (λ c. length (chunk_at ids c)) (open_chunks l) ≡ 0 =
              ap (total _) e in
            omega arith

        of_loading :
            IsLoading ids meta l st
            → (st.loaded_files ≡ map (λ a. some (meta a)) ids) × (st.loaded_file_count ≡ length ids)
        of_loading h =
            let none_left : open_chunks l ≡ [] =
              ap (λ p. in_flight p ++ l.file_id_chunks) e ∙ h.ended e in
            let full = λ (p a : ℕ) (at : get_elem? ids p ≡ some a).
              filled_of none_left p a (h.loads.covered p a at) in
            let long = length-le_of_filled meta st.loaded_files ids full in
            (
              filled_ext meta st.loaded_files ids (omega arith) full,
              h.loads.shown_count ∙ counted_of none_left h.loads.counted,
            )
