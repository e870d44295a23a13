-- ===== src/Store/Page.antt =====
-- The state of store/pageStore.ts, and its actions on page keys, selections and virtual pages.
--
-- `loadedFiles` is a sparse array: a hole is `none`. A `Map` from file ids is a list of its entries with the
-- newest first, so the first entry of a key is the one that is read.
pub mod Chunks
pub mod Indexed
pub mod Load
pub mod Controller
pub mod Slots
pub mod Front
pub mod Runs
pub mod Complete
pub mod Chunked
pub mod Demands
pub mod Finished
pub mod Ends
pub mod Realized
pub mod View
pub mod Shown
pub mod Renewed
pub mod Virtual
pub mod Keys
pub mod Files
pub mod Update
pub mod Stale
use hydrui.Base.{
  ℕ, Bool, true, false, Option, none, some, List, [], ◌∷◌, ◌++◌, Text, codes, eq_text,
  if◌then◌else◌, ◌==◌, Dict, lookup, insert, delete, unique, filter, outside, not,
}

pub data PageType : Type 0 where
  search hydrus virtual : PageType

pub record VirtualPage : Type 0 where
  pub name : Text
  pub file_ids : List ℕ

-- What the store reads of an API page.
pub record ApiPage : Type 0 where
  pub page_key : Text
  pub name : Text

-- What the store reads of a file's metadata: the rest of it is `details`.
pub record FileMetadata : Type 0 where
  pub file_id : ℕ
  pub hash : Option Text
  pub details : Text

pub record PageState : Type 0 where
  pub virtual_pages : Dict VirtualPage
  pub virtual_page_keys : List Text
  pub pages : List ApiPage
  pub active_page_key : Option Text
  pub page_type : PageType
  pub page_name : Option Text
  pub selected_page_keys : List Text
  pub file_ids : List ℕ
  pub file_id_to_index : List (ℕ × ℕ)
  pub selected_files_by_page : Dict (List ℕ)
  pub active_file_by_page : Dict (Option ℕ)
  pub is_loading_files : Bool
  pub is_loading_paused : Bool
  pub is_loading_awake : Bool
  pub loaded_files : List (Option FileMetadata)
  pub loaded_file_count : ℕ
  pub total_file_count : ℕ
  pub error : Option Text
  pub last_request_id : ℕ
  -- The request whose abort controller and load controller the store holds.
  pub current_abort_controller : Option ℕ
  pub metadata_load_controller : Option ℕ
  -- The requests whose controller has been aborted, which is not a field of the source: a load whose
  -- controller is there has its client fail.
  pub aborted : List ℕ

abbrev pub search_page_key : Text
search_page_key = codes "hydrui-search-tab"

abbrev pub start : PageState
start = record {
  virtual_pages = [];
  virtual_page_keys = [];
  pages = [];
  active_page_key = some search_page_key;
  page_type = search;
  page_name = none;
  selected_page_keys = [];
  file_ids = [];
  file_id_to_index = [];
  selected_files_by_page = [];
  active_file_by_page = [];
  is_loading_files = false;
  is_loading_paused = false;
  is_loading_awake = false;
  loaded_files = [];
  loaded_file_count = 0;
  total_file_count = 0;
  error = none;
  last_request_id = 0;
  current_abort_controller = none;
  metadata_load_controller = none;
  aborted = [];
}

abbrev pub with_abort : Option ℕ → List ℕ → List ℕ
with_abort none ks = ks
with_abort (some k) ks = k ∷ ks

-- `currentAbortController.abort()`, where there is one.
unfoldable pub abort_current : PageState → PageState
abort_current st = record st { aborted = with_abort st.current_abort_controller st.aborted }

-- `Map.get`
unfoldable pub entry {ℓ} : {V : Type ℓ} → ℕ → List (ℕ × V) → Option V
entry k [] = none
entry k ((j, v) ∷ m) = if j == k then some v else entry k m
