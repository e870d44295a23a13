-- ===== src/Store/Page/Renewed.antt =====
-- What a renewal and an addition of files in store/pageStore.ts keep of the view.
use hydrui.Base.{
  ℕ, ◌≡◌, refl, sym, ap, subst, ◌∙◌, some, List, [], ◌∷◌, ◌++◌, map, arith, length, Distinct,
  Bool-cases, inl, inr, append-nil, length-map, ◌==◌, length-append, first?, filter,
}
use hydrui.Store.Page.{PageState, FileMetadata}
use hydrui.Store.Page.View.{
  file_ids_of, new_file_ids, add_files_to_view, add_fresh, updated, update_slot,
  refresh_file_metadata,
}
use hydrui.Store.Page.Shown.{IsView, append-IsIndexed}

updated-file_id : (ms : List FileMetadata) (f : FileMetadata) → (updated ms f).file_id ≡ f.file_id
unfolding updated
updated-file_id [] f = refl
updated-file_id (m ∷ ms) f = elim (Bool-cases (m.file_id == f.file_id)) [
  | inl e ↦ let same : m.file_id ≡ f.file_id = ground arith in rw e same
  | inr e ↦ rw e (updated-file_id ms f)
]

file_ids_of-updated :
    (ms fs : List FileMetadata) → file_ids_of (map (updated ms) fs) ≡ file_ids_of fs
file_ids_of-updated ms [] = refl
file_ids_of-updated ms (f ∷ fs) = cc (updated-file_id ms f, file_ids_of-updated ms fs)

update_slot-map-some :
    (ms fs : List FileMetadata)
    → map (update_slot ms) (map some fs) ≡ map some (map (updated ms) fs)
update_slot-map-some ms [] = refl
update_slot-map-some ms (f ∷ fs) = ap (some (updated ms f) ∷◌) (update_slot-map-some ms fs)

map-updated-nil : (fs : List FileMetadata) → map (updated []) fs ≡ fs
unfolding updated
map-updated-nil [] = refl
map-updated-nil (f ∷ fs) = ap (f ∷◌) (map-updated-nil fs)

-- `updated` is the first entry of the reply for the file, or the file where there is none.
pub updated-filter :
    (ms : List FileMetadata) (f : FileMetadata)
    → some (updated ms f) ≡ first? (filter (λ m. m.file_id == f.file_id) ms ++ (f ∷ []))
unfolding updated filter
updated-filter [] f = refl
updated-filter (m ∷ ms) f = elim (Bool-cases (m.file_id == f.file_id)) [
  | inl e ↦ simp e refl
  | inr e ↦ simp e (updated-filter ms f)
]

-- The view goes together behind the client's reply, with the same file ids, and each file has the first
-- metadata that the reply has for it, or those that it had.
pub refresh_file_metadata-IsView :
    (metadata files : List FileMetadata) (st : PageState)
    → IsView files st
    → IsView (map (updated metadata) files) (refresh_file_metadata (some metadata) st)
      × ((refresh_file_metadata (some metadata) st).file_ids ≡ st.file_ids)
      × ((f : FileMetadata)
          → some (updated metadata f)
            ≡ first? (filter (λ m. m.file_id == f.file_id) metadata ++ (f ∷ [])))
unfolding refresh_file_metadata
refresh_file_metadata-IsView [] files st h =
    (subst (λ fs. IsView fs st) (sym (map-updated-nil files)) h, refl, updated-filter [])
refresh_file_metadata-IsView (m ∷ ms) files st h = (
  record {
    loaded = ap (map (update_slot (m ∷ ms))) h.loaded ∙ update_slot-map-some (m ∷ ms) files;
    ids = h.ids ∙ sym (file_ids_of-updated (m ∷ ms) files);
    indexed = h.indexed;
    count = h.count ∙ sym (length-map (updated (m ∷ ms)) files);
  },
  refl,
  updated-filter (m ∷ ms),
)

map-append-some {ℓ} :
    {A : Type ℓ} (xs ys : List A) → map some xs ++ map some ys ≡ map some (xs ++ ys)
map-append-some [] ys = refl
map-append-some (x ∷ xs) ys = ap (some x ∷◌) (map-append-some xs ys)

file_ids_of-append :
    (xs ys : List FileMetadata) → file_ids_of xs ++ file_ids_of ys ≡ file_ids_of (xs ++ ys)
file_ids_of-append [] ys = refl
file_ids_of-append (x ∷ xs) ys = ap (x.file_id ∷◌) (file_ids_of-append xs ys)

file_ids_of-eq-nil : (ms : List FileMetadata) → file_ids_of ms ≡ [] → ms ≡ []
file_ids_of-eq-nil [] e = refl
file_ids_of-eq-nil (m ∷ ms) e = cc

add_fresh-IsView :
    (fresh : List ℕ) (metadata files : List FileMetadata) (st : PageState)
    → IsView files st
    → Distinct (st.file_ids ++ fresh)
    → file_ids_of metadata ≡ fresh
    → IsView (files ++ metadata) (add_fresh fresh metadata st)
      × ((add_fresh fresh metadata st).file_ids ≡ st.file_ids ++ fresh)
      × ((add_fresh fresh metadata st).total_file_count ≡ st.total_file_count)
unfolding add_fresh
add_fresh-IsView [] metadata files st h d honest =
    let same : files ++ metadata ≡ files =
      ap (files ++◌) (file_ids_of-eq-nil metadata honest) ∙ append-nil files in
    (subst (λ fs. IsView fs st) (sym same) h, sym (append-nil st.file_ids), refl)
add_fresh-IsView (f ∷ fs) metadata files st h d honest = (
  record {
    loaded = ap (◌++ (map some metadata)) h.loaded ∙ map-append-some files metadata;
    ids = cc (h.ids, honest, file_ids_of-append files metadata);
    indexed = append-IsIndexed st.file_ids (f ∷ fs) st.file_id_to_index d h.indexed;
    count = omega (
      arith,
      h.count,
      length-append files metadata,
      ap (length {A = ℕ}) honest,
      length-map (λ (x : FileMetadata). x.file_id) metadata,
    );
  },
  refl,
  refl,
)

-- Files that are not in view yet are added behind the others, and the view goes together. The total count
-- stays what it was.
pub add_files_to_view-IsView :
    (added : List ℕ) (metadata files : List FileMetadata) (st : PageState)
    → IsView files st
    → Distinct (st.file_ids ++ new_file_ids added st)
    → file_ids_of metadata ≡ new_file_ids added st
    → IsView (files ++ metadata) (add_files_to_view (some metadata) added st)
      × ((add_files_to_view (some metadata) added st).file_ids
          ≡ st.file_ids ++ new_file_ids added st)
      × ((add_files_to_view (some metadata) added st).total_file_count ≡ st.total_file_count)
unfolding add_files_to_view
add_files_to_view-IsView added metadata files st h distinct honest =
    add_fresh-IsView (new_file_ids added st) metadata files st h distinct honest
