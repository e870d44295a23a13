-- ===== src/Store/Page/Shown.antt =====
-- What the actions of store/pageStore.ts on single files keep of the view.
use hydrui.Base.{
  ℕ, suc, ◌+◌, ◌<◌, ◌≡◌, refl, sym, ap, subst, ◌∙◌, true, false, not, ◌&&◌, some, List, [], ◌∷◌,
  ◌++◌, map, arith, length, has, filter, outside, Distinct, Bool-cases, inl, inr, get_elem?,
  length-append, has-filter, Distinct-filter, get_elem?-append_left, get_elem?-append_right,
  get_elem?-lt-length,
}
use hydrui.Store.Page.{PageState, FileMetadata, entry}
use hydrui.Store.Page.Indexed.{IsIndexed, add-IsIndexed}
use hydrui.Store.Page.View.{
  compact, file_ids_of, index_from, cancel_current_page_load, remove_files_from_view,
}

-- A view without holes: the metadata, the file ids and the map go together.
pub record IsView (files : List FileMetadata) (st : PageState) : Type 0 where
  pub loaded : st.loaded_files ≡ map some files
  pub ids : st.file_ids ≡ file_ids_of files
  pub indexed : IsIndexed st.file_ids (length st.file_ids) st.file_id_to_index
  pub count : st.loaded_file_count ≡ length files

compact-map-some {ℓ} : {A : Type ℓ} (xs : List A) → compact (map some xs) ≡ xs
unfolding compact
compact-map-some [] = refl
compact-map-some (x ∷ xs) = ap (x ∷◌) (compact-map-some xs)

filter-file_ids_of :
    (removed : List ℕ) (files : List FileMetadata)
    → filter (outside removed) (file_ids_of files)
      ≡ file_ids_of (filter (λ f. outside removed f.file_id) files)
unfolding filter
filter-file_ids_of removed [] = refl
filter-file_ids_of removed (f ∷ fs) = elim (Bool-cases (has f.file_id removed)) [
  | inl e ↦ rw e (filter-file_ids_of removed fs)
  | inr e ↦ rw e (ap (f.file_id ∷◌) (filter-file_ids_of removed fs))
]

module _ (ids : List ℕ) (distinct : Distinct ids) where
  index_from-IsIndexed :
      (i : ℕ) (fs : List ℕ) (m : List (ℕ × ℕ))
      → ((k a : ℕ) → get_elem? fs k ≡ some a → get_elem? ids (i + k) ≡ some a)
      → IsIndexed ids i m
      → IsIndexed ids (i + length fs) (index_from i fs m)
  unfolding index_from
  index_from-IsIndexed i [] m at_k h = let e : i + 0 ≡ i = omega arith in rw e h
  index_from-IsIndexed i (f ∷ fs) m at_k h =
      let n : i + suc (length fs) ≡ suc i + length fs = omega arith in
      let z : i + 0 ≡ i = omega arith in
      rw n (
        index_from-IsIndexed (suc i) fs ((f, i) ∷ m)
          (λ k a g. ap (get_elem? ids) (shift i k) ∙ at_k (suc k) a g)
          (add-IsIndexed ids distinct i f m (rw z at (at_k 0 f refl)) h))
    where
      shift : (i k : ℕ) → suc i + k ≡ i + suc k
      shift i k = omega arith

-- The map of all of a list.
pub index_all-IsIndexed :
    (ids : List ℕ) → Distinct ids → IsIndexed ids (length ids) (index_from 0 ids [])
unfolding entry
index_all-IsIndexed ids distinct =
    let z : 0 + length ids ≡ length ids = omega arith in
    subst (λ n. IsIndexed ids n (index_from 0 ids [])) z
      (index_from-IsIndexed ids distinct 0 ids [] (λ k a g. ap (get_elem? ids) (zero-add k) ∙ g)
        (record { right = λ a p e. cc; present = λ a p lt e. absurd (omega arith) }))
  where
    zero-add : (k : ℕ) → 0 + k ≡ k
    zero-add k = omega arith

-- The map of a list with more behind it.
pub append-IsIndexed :
    (xs ys : List ℕ) (m : List (ℕ × ℕ))
    → Distinct (xs ++ ys)
    → IsIndexed xs (length xs) m
    → IsIndexed (xs ++ ys) (length (xs ++ ys)) (index_from (length xs) ys m)
append-IsIndexed xs ys m d h =
    subst (λ n. IsIndexed (xs ++ ys) n (index_from (length xs) ys m)) (sym (length-append xs ys))
      (index_from-IsIndexed (xs ++ ys) d (length xs) ys m
        (λ k a g. get_elem?-append_right xs ys k ∙ g)
        (record {
          right = λ a p e.
              let at = h.right a p e in
              get_elem?-append_left xs ys p (get_elem?-lt-length xs p at) ∙ at;
          present = λ a p lt e. h.present a p lt (sym (get_elem?-append_left xs ys p lt) ∙ e);
        }))

-- The user's end of a load leaves the files that were loaded, in the order of the page, and the view goes
-- together again.
pub cancel_current_page_load-IsView :
    (st : PageState)
    → st.is_loading_files ≡ true
    → Distinct (file_ids_of (compact st.loaded_files))
    → IsView (compact st.loaded_files) (cancel_current_page_load st)
      × ((cancel_current_page_load st).is_loading_files ≡ false)
      × ((cancel_current_page_load st).total_file_count ≡ length (compact st.loaded_files))
      × (st.last_request_id < (cancel_current_page_load st).last_request_id)
unfolding cancel_current_page_load
cancel_current_page_load-IsView st loading distinct =
    let ids = file_ids_of (compact st.loaded_files) in
    rw loading (
      record {
        loaded = refl;
        ids = refl;
        indexed = index_all-IsIndexed ids distinct;
        count = refl;
      },
      refl,
      refl,
      omega arith,
    )

-- A removal from a page that is loaded takes the files out and leaves the others in their order, and the
-- view goes together.
pub remove_files_from_view-IsView :
    (removed : List ℕ) (files : List FileMetadata) (st : PageState)
    → IsView files st
    → Distinct st.file_ids
    → st.is_loading_files ≡ false
    → IsView (filter (λ f. outside removed f.file_id) files) (remove_files_from_view removed st)
      × Distinct (remove_files_from_view removed st).file_ids
      × ((remove_files_from_view removed st).total_file_count
          ≡ length (filter (λ f. outside removed f.file_id) files))
      × ((a : ℕ)
          → has a (remove_files_from_view removed st).file_ids
            ≡ (not (has a removed) && has a st.file_ids))
unfolding remove_files_from_view
remove_files_from_view-IsView removed files st h distinct loaded =
    let there : compact st.loaded_files ≡ files = ap compact h.loaded ∙ compact-map-some files in
    let keep = filter {A = FileMetadata} (λ f. outside removed f.file_id) in
    let kept = Distinct-filter (outside removed) st.file_ids distinct in
    rw loaded (
      record {
        loaded = ap (λ fs. map some (keep fs)) there;
        ids = ap (filter (outside removed)) h.ids ∙ filter-file_ids_of removed files;
        indexed = index_all-IsIndexed (filter (outside removed) st.file_ids) kept;
        count = ap (λ fs. length (keep fs)) there;
      },
      kept,
      ap (λ fs. length (keep fs)) there,
      λ a. has-filter a (outside removed) st.file_ids,
    )
