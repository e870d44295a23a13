-- ===== src/Store/PageTests.antt =====
-- Runs of the page store, and its theorems on them.
use hydrui.Base.{
  ℕ, ◌+◌, ◌*◌, ◌≤◌, ◌<◌, ◌≡◌, refl, Bool, true, false, not, ◌&&◌, ◌||◌, none, some, List, [], ◌∷◌,
  ◌++◌, map, length, Text, codes, eq_text, arith, has, filter, outside, Distinct, if◌then◌else◌,
  lookup, insert, ◌==◌,
}
use hydrui.Store.Page.{PageState, PageType, VirtualPage, FileMetadata, start, abort_current}
use hydrui.Store.Page.Chunks.{split, chunk_at, concat_chunks, chunk_size, split_from, enter}
use hydrui.Store.Page.Indexed.{split-concat_chunks}
use hydrui.Store.Page.Load.{
  Loader, fetching, done, update_with_file_ids, new_loader, opened, proceed, is_current, is_active,
  respond, fail, replied, with_reply,
}
use hydrui.Store.Page.Controller.{
  reprioritize, get_chunks_for_file_ids, get_realized_files, realized,
}
use hydrui.Store.Page.Front.{reprioritize-queue}
use hydrui.Store.Page.Runs.{Run, began, answered, open_chunks}
use hydrui.Store.Page.Ends.{drive, drive_complete}
use hydrui.Store.Page.Realized.{none_more, one_more, get_realized_files-realized}
use hydrui.Store.Page.View.{
  compact, file_ids_of, cancel_current_page_load, remove_files_from_view, index_from,
}
use hydrui.Store.Page.Shown.{
  IsView, cancel_current_page_load-IsView, remove_files_from_view-IsView, index_all-IsIndexed,
}
use hydrui.Store.Page.Virtual.{
  add_virtual_page, remove_virtual_page, add_files_to_page, remove_files_from_page,
}
use hydrui.Store.Page.Keys.{begin, and_then, added, removed, KeysMatch, PagesReach-KeysMatch}
use hydrui.Store.Page.Files.{add_files_to_page-remove_files_from_page}
use hydrui.Store.Page.Update.{update_page_contents, info_reply, PageInfo}
use hydrui.Store.Page.Stale.{update_page_contents-stale, info_reply-aborts}

abbrev metadata_of : ℕ → FileMetadata
metadata_of a = record { file_id = a; hash = none; details = codes "image" }

abbrev page_key : Text
page_key = codes "page"

-- A page that is shown, whose files arrive for the first request.
abbrev shown : PageState
shown = record start { active_page_key = some page_key; last_request_id = 1 }

abbrev two_files : List ℕ
two_files = 30 ∷ 7 ∷ []

two_files-Distinct : Distinct two_files
unfolding has
two_files-Distinct = (refl, (refl, tt))

abbrev loading : Loader × PageState
loading = proceed (new_loader two_files page_key 1) (opened 100 two_files 1 (abort_current shown))

-- One chunk is asked for.
loading_place : loading.0.place ≡ fetching 0
unfolding proceed new_loader split split_from chunk_at enter has
loading_place = refl

loading-Run : Run two_files page_key 1 metadata_of loading.0 loading.1
unfolding update_with_file_ids is_current new_loader opened abort_current eq_text
loading-Run = began 100 shown refl

split-concat_chunks_example :
    (concat_chunks two_files (split two_files).chunks ≡ two_files)
    × Distinct (split two_files).chunks
    × ((c : ℕ)
        → has c (split two_files).chunks ≡ true
        → (0 < length (chunk_at two_files c)) × (length (chunk_at two_files c) ≤ chunk_size))
split-concat_chunks_example = split-concat_chunks two_files

open_chunks-loading : 3 * length (open_chunks loading.0) + 2 ≤ 5
unfolding proceed new_loader split split_from chunk_at enter has
open_chunks-loading = omega arith

drive_complete_example :
    ((drive two_files page_key 1 metadata_of 5 loading.0 loading.1).0.place ≡ done)
    × ((drive two_files page_key 1 metadata_of 5 loading.0 loading.1).1.loaded_files
        ≡ map (λ a. some (metadata_of a)) two_files)
    × ((drive two_files page_key 1 metadata_of 5 loading.0 loading.1).1.loaded_file_count
        ≡ length two_files)
drive_complete_example =
    drive_complete two_files page_key 1 metadata_of (λ a. refl) two_files-Distinct 5 loading.0
      loading.1 loading-Run open_chunks-loading

-- The same load behind the reply for its chunk.
abbrev loaded : Loader × PageState
loaded = respond 0 (map metadata_of (chunk_at two_files 0)) loading.0 loading.1

loaded-Run : Run two_files page_key 1 metadata_of loaded.0 loaded.1
loaded-Run = answered 0 loading-Run loading_place

loaded_promises : loaded.0.chunk_to_promise ≡ []
unfolding proceed new_loader split split_from chunk_at enter has respond opened abort_current
    is_current replied with_reply eq_text filter
loaded_promises = refl

loaded_settled :
    (c : ℕ)
    → has c (get_chunks_for_file_ids loaded.0 (7 ∷ 30 ∷ [])) ≡ true
    → has c loaded.0.chunk_to_promise ≡ false
unfolding has
loaded_settled c m = rw loaded_promises refl

get_realized_files-realized_example :
    get_realized_files loaded.0 loaded.1 (7 ∷ 30 ∷ []) ≡ realized (map metadata_of (7 ∷ 30 ∷ []))
get_realized_files-realized_example =
    get_realized_files-realized two_files page_key 1 metadata_of (λ a. refl) two_files-Distinct
      (7 ∷ 30 ∷ []) loaded.0 loaded.1 loaded-Run (one_more 1 7 refl (one_more 0 30 refl none_more))
      loaded_settled

-- A queue of three chunks, of which the last has the file 9.
abbrev queued : Loader
queued = record {
  page_key = page_key;
  request_id = 1;
  file_id_to_chunk = (9, 512) ∷ (8, 0) ∷ [];
  file_id_to_index = (9, 515) ∷ (8, 4) ∷ [];
  file_id_chunks = 256 ∷ 512 ∷ [];
  chunk_to_promise = 0 ∷ 256 ∷ 512 ∷ [];
  demand_set = [];
  loaded_file_count = 0;
  wakeup = false;
  place = fetching 0;
}

queued-Distinct : Distinct queued.file_id_chunks
unfolding has
queued-Distinct = (refl, (refl, tt))

reprioritize-queue_example :
    (first rest : List ℕ) × ((reprioritize (9 ∷ 8 ∷ []) queued shown).0.file_id_chunks
      ≡ first ++ rest)
    × ((c : ℕ)
        → has c first
          ≡ (has c (get_chunks_for_file_ids queued (9 ∷ 8 ∷ [])) && has c queued.file_id_chunks))
    × ((c : ℕ)
        → has c rest ≡ (
            not (has c (get_chunks_for_file_ids queued (9 ∷ 8 ∷ [])))
            && has c queued.file_id_chunks))
    × Distinct (first ++ rest)
reprioritize-queue_example = reprioritize-queue (9 ∷ 8 ∷ []) queued shown queued-Distinct

loading_active : is_active page_key loading.1.active_page_key ≡ true
unfolding proceed new_loader split split_from chunk_at enter has opened abort_current eq_text
loading_active = refl

loading_older : loading.0.request_id ≤ loading.1.last_request_id
unfolding proceed new_loader split split_from chunk_at enter has opened abort_current
loading_older = omega arith

abbrev overtaken : PageState
overtaken = (update_page_contents 100 (4 ∷ []) page_key PageType.hydrus loading.1).1

update_page_contents-stale_example :
    ((c : ℕ) (files : List FileMetadata) → (respond c files loading.0 overtaken).1 ≡ overtaken)
    × ((proceed loading.0 overtaken).1 ≡ overtaken)
    × ((is_abort : Bool) → (fail is_abort loading.0 overtaken).1 ≡ overtaken)
update_page_contents-stale_example =
    update_page_contents-stale 100 (4 ∷ []) page_key PageType.hydrus loading.0 loading.1
      loading_active loading_older

-- The reply to a request of before, with one file.
abbrev late_info : PageInfo
late_info = record { name = codes "Page"; hash_ids = 30 ∷ [] }

loading_newer : (loading.1.last_request_id == 0) ≡ false
unfolding proceed new_loader split split_from chunk_at enter has opened abort_current
loading_newer = refl

loading_controller : loading.1.current_abort_controller ≡ some loading.0.request_id
unfolding proceed new_loader split split_from chunk_at enter has opened abort_current
loading_controller = refl

info_reply-aborts_example :
    ((info_reply 100 page_key 0 (some late_info) loading.1).0 ≡ none)
    × ((info_reply 100 page_key 0 (some late_info) loading.1).1.aborted
        ≡ loading.0.request_id ∷ loading.1.aborted)
    × ((fail true loading.0 (info_reply 100 page_key 0 (some late_info) loading.1).1).0.place
        ≡ done)
    × ((fail true loading.0
          (info_reply 100 page_key 0 (some late_info) loading.1).1).1.is_loading_files
        ≡ loading.1.is_loading_files)
    × ((fail true loading.0 (info_reply 100 page_key 0 (some late_info) loading.1).1).1.error
        ≡ loading.1.error)
info_reply-aborts_example =
    info_reply-aborts 100 page_key 0 late_info loading.0 loading.1 loading_active refl loading_newer
      loading_controller

-- A load of which one file is there, at the third place.
abbrev half_loaded : PageState
half_loaded = record shown {
  is_loading_files = true;
  loaded_files = none ∷ none ∷ some (metadata_of 30) ∷ [];
}

half_loaded-Distinct : Distinct (file_ids_of (compact half_loaded.loaded_files))
unfolding compact has
half_loaded-Distinct = (refl, tt)

cancel_current_page_load-IsView_example :
    IsView (compact half_loaded.loaded_files) (cancel_current_page_load half_loaded)
    × ((cancel_current_page_load half_loaded).is_loading_files ≡ false)
    × ((cancel_current_page_load half_loaded).total_file_count
        ≡ length (compact half_loaded.loaded_files))
    × (half_loaded.last_request_id < (cancel_current_page_load half_loaded).last_request_id)
cancel_current_page_load-IsView_example =
    cancel_current_page_load-IsView half_loaded refl half_loaded-Distinct

abbrev two_shown : PageState
two_shown = record shown {
  file_ids = two_files;
  file_id_to_index = index_from 0 two_files [];
  loaded_files = map some (map metadata_of two_files);
  loaded_file_count = 2;
}

two_shown-IsView : IsView (map metadata_of two_files) two_shown
two_shown-IsView = record {
  loaded = refl;
  ids = refl;
  indexed = index_all-IsIndexed two_files two_files-Distinct;
  count = refl;
}

remove_files_from_view-IsView_example :
    IsView
      (filter (λ f. outside (30 ∷ []) f.file_id) (map metadata_of two_files))
      (remove_files_from_view (30 ∷ []) two_shown)
    × Distinct (remove_files_from_view (30 ∷ []) two_shown).file_ids
    × ((remove_files_from_view (30 ∷ []) two_shown).total_file_count
        ≡ length (filter (λ f. outside (30 ∷ []) f.file_id) (map metadata_of two_files)))
    × ((a : ℕ)
        → has a (remove_files_from_view (30 ∷ []) two_shown).file_ids
          ≡ (not (has a (30 ∷ [])) && has a two_shown.file_ids))
remove_files_from_view-IsView_example =
    remove_files_from_view-IsView (30 ∷ []) (map metadata_of two_files) two_shown two_shown-IsView
      two_files-Distinct refl

abbrev virtual_page : VirtualPage
virtual_page = record { name = codes "Favourites"; file_ids = 5 ∷ [] }

abbrev one_page : PageState
one_page = add_virtual_page (codes "v") virtual_page start

PagesReach-KeysMatch_example : KeysMatch (remove_virtual_page (codes "w") one_page)
PagesReach-KeysMatch_example =
    PagesReach-KeysMatch
      (and_then (and_then begin (added (codes "v") virtual_page)) (removed (codes "w")))

one_page_lookup : lookup (codes "v") one_page.virtual_pages ≡ some virtual_page
unfolding add_virtual_page insert lookup eq_text
one_page_lookup = refl

add_files_to_page-remove_files_from_page_example :
    (now : VirtualPage) × (rest : VirtualPage) × ((j : Text)
      → lookup j (add_files_to_page (codes "v") two_files one_page).virtual_pages
        ≡ (if eq_text (codes "v") j then some now else lookup j one_page.virtual_pages))
    × ((j : Text)
        → lookup j
            (remove_files_from_page
              (codes "v")
              (5 ∷ [])
              (add_files_to_page (codes "v") two_files one_page)).virtual_pages
          ≡ (if eq_text (codes "v") j then some rest else lookup j one_page.virtual_pages))
    × ((a : ℕ) → has a now.file_ids ≡ (has a virtual_page.file_ids || has a two_files))
    × ((a : ℕ)
        → has a rest.file_ids
          ≡ (not (has a (5 ∷ [])) && (has a virtual_page.file_ids || has a two_files)))
    × (Distinct virtual_page.file_ids
        → Distinct two_files
        → Distinct now.file_ids × Distinct rest.file_ids)
    × (now.name ≡ virtual_page.name)
    × (rest.name ≡ virtual_page.name)
add_files_to_page-remove_files_from_page_example =
    add_files_to_page-remove_files_from_page (codes "v") virtual_page two_files (5 ∷ []) one_page
      one_page_lookup
