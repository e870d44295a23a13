-- ===== src/Store/Page/Load.antt =====
-- `updateWithFileIds` of store/pageStore.ts: the load of a page's metadata, chunk by chunk.
--
-- A load runs from one `await` to the next, and `Place` says at which one it stands. The builder of the
-- chunks waits a moment behind every hundredth of them: it is run in one go, and the page and the request
-- are tested once.
use hydrui.Base.{
  ℕ, zero, suc, ◌+◌, true, false, Bool, Option, none, some, List, [], ◌∷◌, length, ltb, has, filter,
  not, ◌&&◌, is_empty, if◌then◌else◌, ◌==◌, Text, codes, eq_text,
}
use hydrui.Store.Page.{PageState, FileMetadata, entry, abort_current}
use hydrui.Store.Page.Chunks.{split}

pub data Place : Type 0 where
  -- At the client's promise for a chunk; at the promise of `pauseWait`, not settled or settled.
  fetching : ℕ → Place
  pausing ready done : Place

pub record Loader : Type 0 where
  pub page_key : Text
  pub request_id : ℕ
  pub file_id_to_chunk : List (ℕ × ℕ)
  pub file_id_to_index : List (ℕ × ℕ)
  pub file_id_chunks : List ℕ
  -- The chunks whose promise is not settled, and those that are waited for.
  pub chunk_to_promise : List ℕ
  pub demand_set : List ℕ
  pub loaded_file_count : ℕ
  -- Whether `wakeupRef` holds a function that `pauseWait` has made.
  pub wakeup : Bool
  pub place : Place

abbrev pub is_active : Text → Option Text → Bool
is_active key none = false
is_active key (some k) = eq_text k key

-- The store still shows the page, and for this request.
unfoldable pub is_current : Loader → PageState → Bool
is_current l st = is_active l.page_key st.active_page_key && (st.last_request_id == l.request_id)

-- `loadedFiles[index] = file`: what lies between is left out of the array.
unfoldable pub put_at {ℓ} : {A : Type ℓ} → ℕ → A → List (Option A) → List (Option A)
put_at zero v [] = some v ∷ []
put_at zero v (_ ∷ xs) = some v ∷ xs
put_at (suc i) v [] = none ∷ put_at i v []
put_at (suc i) v (x ∷ xs) = x ∷ put_at i v xs

-- `loadedFiles[index]`, where a hole and what lies behind the end are `undefined`.
unfoldable pub filled {ℓ} : {A : Type ℓ} → List (Option A) → ℕ → Option A
filled [] i = none
filled (x ∷ xs) zero = x
filled (x ∷ xs) (suc i) = filled xs i

-- A file that the page does not have is not kept.
abbrev pub put_file :
    Option ℕ → FileMetadata → List (Option FileMetadata) → List (Option FileMetadata)
put_file none file loaded = loaded
put_file (some i) file loaded = put_at i file loaded

unfoldable pub put_files :
    List (ℕ × ℕ) → List FileMetadata → List (Option FileMetadata) → List (Option FileMetadata)
unfolding entry put_at
put_files index [] loaded = loaded
put_files index (file ∷ files) loaded =
    put_files index files (put_file (entry file.file_id index) file loaded)

abbrev pub emptied : PageState → PageState
emptied st = record st {
  is_loading_files = false;
  is_loading_awake = false;
  file_ids = [];
  file_id_to_index = [];
  loaded_files = [];
  loaded_file_count = 0;
  total_file_count = 0;
}

abbrev pub finished : PageState → PageState
finished st = record st {
  is_loading_files = false;
  is_loading_awake = false;
  current_abort_controller = none;
  metadata_load_controller = none;
}

-- The `catch`: an error that is no abort is shown if the load is still the current one.
unfoldable pub fail : Bool → Loader → PageState → Loader × PageState
unfolding is_current
fail is_abort l st = (
  record l { place = done; chunk_to_promise = [] },
  if is_current l st && not is_abort
      then record (finished st) { error = some (codes "Failed to load file data") }
      else st,
)

abbrev pub fetch_first : List ℕ → Loader → PageState → Loader × PageState
fetch_first [] l st = (record l { place = done }, if is_current l st then finished st else st)
fetch_first (c ∷ cs) l st =
    if has c l.chunk_to_promise
    then (record l { place = fetching c; file_id_chunks = cs }, st)
    else fail false (record l { file_id_chunks = cs }) st

-- The head of the loop, and what stands behind it when no chunk is left.
unfoldable pub proceed : Loader → PageState → Loader × PageState
unfolding is_current fail
proceed l st = fetch_first l.file_id_chunks l st

-- `pauseWait`
unfoldable pub pause_wait : Loader → PageState → Loader × PageState
pause_wait l st =
    if st.is_loading_paused
    then (record l { place = pausing; wakeup = true }, record st { is_loading_awake = false })
    else (record l { place = ready; wakeup = false }, st)

-- The load and the store once the reply for the chunk `c` is taken in.
unfoldable pub replied : ℕ → List FileMetadata → Loader → Loader
unfolding filter
replied c metadata l = record l {
  chunk_to_promise = filter (λ k. not (k == c)) l.chunk_to_promise;
  demand_set = filter (λ k. not (k == c)) l.demand_set;
  loaded_file_count = l.loaded_file_count + length metadata;
}

unfoldable pub with_reply : List FileMetadata → Loader → PageState → PageState
unfolding put_files
with_reply metadata l st = record st {
  loaded_files = put_files l.file_id_to_index metadata st.loaded_files;
  loaded_file_count = l.loaded_file_count + length metadata;
}

abbrev pub after_reply : Loader → PageState → Loader × PageState
after_reply l st =
    if is_empty l.demand_set && not (is_empty l.file_id_chunks)
    then pause_wait l st
    else proceed l st

-- The body of the loop behind the client's reply for the chunk `c`.
unfoldable pub respond : ℕ → List FileMetadata → Loader → PageState → Loader × PageState
unfolding replied with_reply pause_wait proceed is_current
respond c metadata l st =
    if is_current l st
    then after_reply (replied c metadata l) (with_reply metadata l st)
    else (record l { place = done; chunk_to_promise = [] }, st)

abbrev pub roused : Place → Place
roused pausing = ready
roused place = place

-- A call of `wakeupRef.value`.
unfoldable pub wake : Loader → PageState → Loader × PageState
wake l st =
    if l.wakeup
    then (record l { place = roused l.place }, record st { is_loading_awake = true })
    else (l, st)

-- What `updateWithFileIds` builds for the page's files, and what it shows of them.
unfoldable pub new_loader : List ℕ → Text → ℕ → Loader
unfolding split
new_loader file_ids key request_id =
    let m = split file_ids in
    record {
      page_key = key;
      request_id = request_id;
      file_id_to_chunk = m.chunk_of;
      file_id_to_index = m.index_of;
      file_id_chunks = m.chunks;
      chunk_to_promise = m.chunks;
      demand_set = [];
      loaded_file_count = 0;
      wakeup = false;
      place = ready;
    }

unfoldable pub opened : ℕ → List ℕ → ℕ → PageState → PageState
unfolding split
opened eager_load_threshold file_ids request_id st = record st {
  error = none;
  file_ids = file_ids;
  file_id_to_index = (split file_ids).index_of;
  is_loading_files = true;
  is_loading_paused = ltb eager_load_threshold (length file_ids);
  is_loading_awake = true;
  loaded_files = [];
  loaded_file_count = 0;
  total_file_count = length file_ids;
  current_abort_controller = some request_id;
  metadata_load_controller = some request_id;
}

-- `updateWithFileIds` to the first reply; there is no load for a page without files.
unfoldable pub update_with_file_ids : ℕ → List ℕ → Text → ℕ → PageState → Option Loader × PageState
unfolding new_loader opened is_current proceed abort_current
update_with_file_ids eager_load_threshold file_ids key request_id st =
    let l = new_loader file_ids key request_id in
    let stopped = abort_current st in
    let begun = proceed l (opened eager_load_threshold file_ids request_id stopped) in
    if not (is_active key st.active_page_key)
    then (none, st)
    else if is_empty file_ids
    then (none, emptied stopped)
    else if is_current l stopped
    then (some begun.0, begun.1)
    else (none, stopped)

-- `setIsLoadingPaused`, where the store holds the controller of this load.
unfoldable pub set_is_loading_paused : Bool → Loader → PageState → Loader × PageState
unfolding wake
set_is_loading_paused true l st = (l, record st { is_loading_paused = true })
set_is_loading_paused false l st = wake l (record st { is_loading_paused = false })
