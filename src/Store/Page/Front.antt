-- ===== src/Store/Page/Front.antt =====
-- `reprioritizeChunks` of store/pageStore.ts, on the queue of chunks.
use hydrui.Base.{
  Bool, is_empty, ℕ, ◌≡◌, refl, ◌∙◌, true, false, List, [], ◌++◌, arith, has, filter, outside, not,
  ◌&&◌, Distinct, Bool-cases, inl, inr, has-append, has-filter, Distinct-filter, Distinct-append,
  Distinct-unique,
}
use hydrui.Store.Page.{PageState}
use hydrui.Store.Page.Load.{Loader, wake}
use hydrui.Store.Page.Controller.{front, reprioritize, reprioritize_chunks, get_chunks_for_file_ids}

pub has-front : (c : ℕ) (chunks queue : List ℕ) → has c (front chunks queue) ≡ has c queue
unfolding front
has-front c chunks queue = ground (
  arith,
  has-append c (filter (λ k. has k queue) chunks) (filter (outside chunks) queue),
  has-filter c (λ k. has k queue) chunks,
  has-filter c (outside chunks) queue,
)

pub front-Distinct :
    (chunks queue : List ℕ) → Distinct chunks → Distinct queue → Distinct (front chunks queue)
unfolding front
front-Distinct chunks queue d k =
    Distinct-append _ _ (Distinct-filter _ chunks d) (Distinct-filter _ queue k) apart
  where
    apart :
        (a : ℕ)
        → has a (filter (λ c. has c queue) chunks) ≡ true
        → has a (filter (outside chunks) queue) ≡ false
    apart a m =
        ground (arith, has-filter a (λ c. has c queue) chunks, has-filter a (outside chunks) queue)

pub get_chunks_for_file_ids-Distinct :
    (l : Loader) (ids : List ℕ) → Distinct (get_chunks_for_file_ids l ids)
unfolding get_chunks_for_file_ids
get_chunks_for_file_ids-Distinct l ids = Distinct-unique [] _

wake-queue : (l : Loader) (st : PageState) → (wake l st).0.file_id_chunks ≡ l.file_id_chunks
unfolding wake
wake-queue l st = elim (Bool-cases l.wakeup) [ inl e ↦ rw e refl | inr e ↦ rw e refl ]

pub reprioritize_chunks-queue :
    (chunks : List ℕ) (l : Loader) (st : PageState)
    → (reprioritize_chunks chunks l st).0.file_id_chunks ≡ front chunks l.file_id_chunks
unfolding reprioritize_chunks
reprioritize_chunks-queue chunks l st =
    elim (Bool-cases (
      is_empty (
        l.demand_set
        ++ filter (outside l.demand_set) (filter (λ c. has c l.file_id_chunks) chunks)))) [
          | inl e ↦ rw e refl
          | inr e ↦ rw e (wake-queue _ st)
        ]

-- The queue behind a call: first the chunks of the files that were in it, then the others, and none is
-- lost, made or doubled.
pub reprioritize-queue :
    (ids : List ℕ) (l : Loader) (st : PageState)
    → Distinct l.file_id_chunks
    → (first rest : List ℕ) × ((reprioritize ids l st).0.file_id_chunks ≡ first ++ rest)
      × ((c : ℕ) → has c first ≡ (has c (get_chunks_for_file_ids l ids) && has c l.file_id_chunks))
      × ((c : ℕ)
          → has c rest ≡ (not (has c (get_chunks_for_file_ids l ids)) && has c l.file_id_chunks))
      × Distinct (first ++ rest)
unfolding reprioritize front
reprioritize-queue ids l st d =
    let chunks = get_chunks_for_file_ids l ids in
    (
      filter (λ c. has c l.file_id_chunks) chunks,
      filter (outside chunks) l.file_id_chunks,
      reprioritize_chunks-queue chunks l st,
      λ c.
          has-filter c (λ k. has k l.file_id_chunks) chunks
          ∙ and_comm (has c l.file_id_chunks) (has c chunks),
      λ c. has-filter c (outside chunks) l.file_id_chunks,
      front-Distinct chunks l.file_id_chunks (get_chunks_for_file_ids-Distinct l ids) d,
    )
  where
    and_comm : (x y : Bool) → (x && y) ≡ (y && x)
    and_comm x y = ground arith
