-- ===== src/Store/Page/Realized.antt =====
-- `demandFetchMetadata` of the load controller of store/pageStore.ts.
use hydrui.Base.{
  ℕ, ◌*◌, ◌/◌, ◌≡◌, refl, ap, ◌∙◌, true, false, some, List, [], ◌∷◌, map, arith, has, has-unique,
  Distinct, inl, inr, ◌⊎◌, get_elem?, get_elem?-lt-length, Text,
}
use hydrui.Store.Page.{PageState, FileMetadata, entry}
use hydrui.Store.Page.Indexed.{split-IsIndexed}
use hydrui.Store.Page.Chunked.{split-IsChunked, chunk_index}
use hydrui.Store.Page.Load.{Loader, filled}
use hydrui.Store.Page.Controller.{
  get_chunks_for_file_ids, chunks_of, known, realized, get_realized_files, slot, joined, loaded_or,
}
use hydrui.Store.Page.Runs.{IsLoading, open_chunks, Run}
use hydrui.Store.Page.Finished.{Run-IsLoading}

-- Each file is one of the page's.
pub data AreInPage (ids : List ℕ) : List ℕ → Type 0 where
  none_more : AreInPage ids []
  one_more :
      (p a : ℕ) {rest : List ℕ}
      → get_elem? ids p ≡ some a
      → AreInPage ids rest
      → AreInPage ids (a ∷ rest)

module _ (ids : List ℕ) (key : Text) (request_id : ℕ) (meta : ℕ → FileMetadata)
    (honest : (a : ℕ) → (meta a).file_id ≡ a) (distinct : Distinct ids) where
  slot-realized :
      (l : Loader) (st : PageState)
      → IsLoading ids meta l st
      → (p a : ℕ) → get_elem? ids p ≡ some a
      → has (p / 256 * 256) l.chunk_to_promise ≡ false
      → slot st.loaded_files (entry a l.file_id_to_index) a ≡ realized (meta a ∷ [])
  slot-realized l st h p a at settled =
      let index : entry a l.file_id_to_index ≡ some p =
        ap (entry a) h.loads.index
        ∙ (split-IsIndexed ids distinct).present a p (get_elem?-lt-length ids p at) at in
      rw index (of_place (h.loads.covered p a at))
    where
      of_place :
          (has (p / 256 * 256) (open_chunks l) ≡ true) ⊎ (filled st.loaded_files p ≡ some (meta a))
          → slot st.loaded_files (some p) a ≡ realized (meta a ∷ [])
      of_place (inl m) =
          let pending : has (p / 256 * 256) l.chunk_to_promise ≡ true = h.loads.promises _ ∙ m in cc
      of_place (inr f) = ap (λ o. loaded_or o a) f

  chunk-known :
      (l : Loader) (st : PageState)
      → IsLoading ids meta l st
      → (p a : ℕ) → get_elem? ids p ≡ some a
      → entry a l.file_id_to_chunk ≡ some (p / 256 * 256)
  chunk-known l st h p a at =
      ap (entry a) h.loads.chunk
      ∙ split-IsChunked ids a
      ∙ ap chunk_index
          ((split-IsIndexed ids distinct).present a p (get_elem?-lt-length ids p at) at)

  realized_all :
      (fs : List ℕ) (l : Loader) (st : PageState)
      → IsLoading ids meta l st
      → AreInPage ids fs
      → ((c : ℕ)
          → has c (chunks_of l.file_id_to_chunk fs) ≡ true
          → has c l.chunk_to_promise ≡ false)
      → get_realized_files l st fs ≡ realized (map meta fs)
  unfolding get_realized_files chunks_of has
  realized_all fs l st h none_more settled = refl
  realized_all fs l st h (one_more p a {rest} at more) settled =
      let here = chunk-known l st h p a at in
      let mine = settled (p / 256 * 256) (
        ap (λ o. has (p / 256 * 256) (known o (chunks_of l.file_id_to_chunk rest))) here
        ∙ first (p / 256 * 256) (chunks_of l.file_id_to_chunk rest)) in
      let others = realized_all rest l st h more (λ c m. settled c (
        ap (λ o. has c (known o (chunks_of l.file_id_to_chunk rest))) here
        ∙ behind c (p / 256 * 256) (chunks_of l.file_id_to_chunk rest) m)) in
      ap (λ s. joined s (get_realized_files l st rest)) (slot-realized l st h p a at mine)
      ∙ ap (joined (realized (meta a ∷ []))) others
    where
      first : (k : ℕ) (cs : List ℕ) → has k (k ∷ cs) ≡ true
      first k cs = ground arith

      behind : (c k : ℕ) (cs : List ℕ) → has c cs ≡ true → has c (k ∷ cs) ≡ true
      behind c k cs m = ground arith

  -- Once none of the chunks that `demandFetchMetadata` waits for has a promise left, every file of the page that
  -- was asked for is there: the metadata are those of the files, in the order asked for.
  pub get_realized_files-realized :
      (fs : List ℕ) (l : Loader) (st : PageState)
      → Run ids key request_id meta l st
      → AreInPage ids fs
      → ((c : ℕ) → has c (get_chunks_for_file_ids l fs) ≡ true → has c l.chunk_to_promise ≡ false)
      → get_realized_files l st fs ≡ realized (map meta fs)
  unfolding get_chunks_for_file_ids
  get_realized_files-realized fs l st r inside settled =
      realized_all fs l st (Run-IsLoading ids key request_id meta honest distinct r) inside
        (λ c m. settled c (has-unique c [] (chunks_of l.file_id_to_chunk fs) ∙ m))
