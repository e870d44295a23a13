-- ===== src/Store/Page/View.antt =====
-- The actions of store/pageStore.ts on the files that it shows: the end of a load by the user, and the addition,
-- removal and renewal of single files. An action that awaits the client is what it does with the reply; `none`
-- is a client that fails. A hole of the array and an `undefined` in it are both `none`.
use hydrui.Base.{
  ℕ, suc, ◌+◌, false, Option, none, some, List, [], ◌∷◌, ◌++◌, map, length, has, filter, outside,
  if◌then◌else◌, ◌==◌, codes,
}
use hydrui.Store.Page.{PageState, FileMetadata, abort_current}

-- The entries of a sparse array that are there: `Object.values`, and what `filter` looks at.
unfoldable pub compact {ℓ} : {A : Type ℓ} → List (Option A) → List A
compact [] = []
compact (none ∷ xs) = compact xs
compact (some x ∷ xs) = x ∷ compact xs

abbrev pub file_ids_of : List FileMetadata → List ℕ
file_ids_of = map (λ f. f.file_id)

-- `fileIdToIndex.set(fileId, i)` for each file id, from the index `i` on.
unfoldable pub index_from : ℕ → List ℕ → List (ℕ × ℕ) → List (ℕ × ℕ)
index_from i [] m = m
index_from i (f ∷ fs) m = index_from (suc i) fs ((f, i) ∷ m)

-- `cancelCurrentPageLoad`. It has the search store cancel its search as well.
unfoldable pub cancel_current_page_load : PageState → PageState
unfolding compact index_from abort_current
cancel_current_page_load st =
    let files = compact st.loaded_files in
    if st.is_loading_files
    then record (abort_current st) {
      file_ids = file_ids_of files;
      file_id_to_index = index_from 0 (file_ids_of files) [];
      is_loading_files = false;
      is_loading_awake = false;
      loaded_files = map some files;
      loaded_file_count = length files;
      total_file_count = length files;
      last_request_id = suc st.last_request_id;
      current_abort_controller = none;
      metadata_load_controller = none;
    }
    else abort_current st

-- The file ids that `addFilesToView` asks the client for: it asks for nothing if there are none.
unfoldable pub new_file_ids : List ℕ → PageState → List ℕ
unfolding filter has
new_file_ids file_ids st = filter (outside st.file_ids) file_ids

abbrev pub add_failed : List ℕ → PageState → PageState
add_failed [] st = st
add_failed (_ ∷ _) st = record st {
  error = some (codes "Failed to load new file metadata");
  is_loading_files = false;
  is_loading_awake = false;
}

unfoldable pub add_fresh : List ℕ → List FileMetadata → PageState → PageState
unfolding index_from
add_fresh [] metadata st = st
add_fresh (f ∷ fs) metadata st = record st {
  file_ids = st.file_ids ++ (f ∷ fs);
  file_id_to_index = index_from (length st.file_ids) (f ∷ fs) st.file_id_to_index;
  is_loading_files = false;
  is_loading_awake = false;
  loaded_files = st.loaded_files ++ map some metadata;
  loaded_file_count = st.loaded_file_count + length (f ∷ fs);
}

-- `addFilesToView` with the client's reply, where the store has not changed in between.
unfoldable pub add_files_to_view : Option (List FileMetadata) → List ℕ → PageState → PageState
unfolding new_file_ids add_fresh
add_files_to_view none file_ids st = add_failed (new_file_ids file_ids st) st
add_files_to_view (some metadata) file_ids st = add_fresh (new_file_ids file_ids st) metadata st

-- `removeFilesFromView`
unfoldable pub remove_files_from_view : List ℕ → PageState → PageState
unfolding compact index_from filter has
remove_files_from_view removed st =
    let file_ids = filter (outside removed) st.file_ids in
    let files = filter (λ f. outside removed f.file_id) (compact st.loaded_files) in
    if st.is_loading_files then st else record st {
      file_ids = file_ids;
      loaded_files = map some files;
      loaded_file_count = length files;
      total_file_count = length files;
      file_id_to_index = index_from 0 file_ids [];
    }

-- `response.metadata.find((m) => m.file_id === file.file_id) || file`
unfoldable pub updated : List FileMetadata → FileMetadata → FileMetadata
updated [] file = file
updated (m ∷ ms) file = if m.file_id == file.file_id then m else updated ms file

abbrev pub update_slot : List FileMetadata → Option FileMetadata → Option FileMetadata
update_slot ms none = none
update_slot ms (some file) = some (updated ms file)

-- `refreshFileMetadata`: `map` leaves the holes.
unfoldable pub refresh_file_metadata : Option (List FileMetadata) → PageState → PageState
unfolding updated
refresh_file_metadata none st = st
refresh_file_metadata (some []) st = st
refresh_file_metadata (some (m ∷ ms)) st = record st {
  loaded_files = map (update_slot (m ∷ ms)) st.loaded_files;
}
