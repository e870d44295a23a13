-- ===== src/Store/Page/Update.antt =====
-- `updatePageContents`, `setPage` and `fetchPages` of store/pageStore.ts, each up to what it awaits.
-- The search results are those of the search store.
use hydrui.Base.{
  ℕ, suc, Bool, true, false, not, ◌&&◌, Option, none, some, List, [], ◌∷◌, is_empty, Text, codes,
  eq_text, if◌then◌else◌, lookup,
}
use hydrui.Store.Page.{PageState, PageType, VirtualPage, ApiPage, search_page_key}
use hydrui.Store.Page.Load.{Loader, update_with_file_ids, is_active}
use hydrui.Store.Page.Virtual.{is_virtual}

-- What a call of `updatePageContents` awaits.
pub data Waits : Type 0 where
  for_info : (key : Text) (request_id : ℕ) → Waits
  for_load : Loader → Waits

-- What the store reads of the reply to `getPageInfo`.
pub record PageInfo : Type 0 where
  pub name : Text
  pub hash_ids : List ℕ

abbrev pub load_of : Option Loader × PageState → Option Waits × PageState
load_of (none, st) = (none, st)
load_of (some l, st) = (some (for_load l), st)

abbrev pub has_key : Text → List Text → Bool
has_key key [] = false
has_key key (k ∷ ks) = if eq_text k key then true else has_key key ks

abbrev pub is_there {ℓ} : {A : Type ℓ} → Option A → Bool
is_there none = false
is_there (some _) = true

-- The page that `fetchPages` goes on to: one for a store that has no active page.
abbrev pub first_page : Option Text → List ApiPage → Option (Text × PageType)
first_page (some (_ ∷ _)) pages = none
first_page (some []) [] = some (search_page_key, PageType.search)
first_page none [] = some (search_page_key, PageType.search)
first_page (some []) (page ∷ _) = some (page.page_key, PageType.hydrus)
first_page none (page ∷ _) = some (page.page_key, PageType.hydrus)

-- `updatePageContents` behind `getPageInfo`; `none` is a client that fails.
unfoldable pub info_reply : ℕ → Text → ℕ → Option PageInfo → PageState → Option Waits × PageState
unfolding update_with_file_ids
info_reply eager_load_threshold key request_id none st =
    if is_active key st.active_page_key
    then (
      none,
      record st {
        error = some (codes "Failed to load page data");
        is_loading_files = false;
        is_loading_awake = false;
      },
    )
    else (none, st)
info_reply eager_load_threshold key request_id (some info) st =
    if is_active key st.active_page_key
    then load_of (
        update_with_file_ids eager_load_threshold info.hash_ids key request_id
          (record st { page_name = some info.name }))
    else (none, st)

module _ (eager_load_threshold : ℕ) (search_results : List ℕ) where
  abbrev pub update_virtual : Text → ℕ → Option VirtualPage → PageState → Option Waits × PageState
  update_virtual key request_id none st =
      (none, record st { error = some (codes "Virtual page not found") })
  update_virtual key request_id (some page) st = load_of (
      update_with_file_ids eager_load_threshold page.file_ids key request_id
        (record st { page_name = some page.name }))

  abbrev pub update_by_type : PageType → Text → ℕ → PageState → Option Waits × PageState
  update_by_type PageType.hydrus key request_id st = (some (for_info key request_id), st)
  update_by_type PageType.search key request_id st = load_of (
      update_with_file_ids eager_load_threshold search_results key request_id (record st {
        page_name = some (codes "Search");
        is_loading_files = not (is_empty search_results);
        is_loading_awake = not (is_empty search_results);
      }))
  update_by_type PageType.virtual key request_id st =
      update_virtual key request_id (lookup key st.virtual_pages) st

  unfoldable pub update_page_contents : Text → PageType → PageState → Option Waits × PageState
  unfolding update_with_file_ids lookup
  update_page_contents key type st =
      if is_active key st.active_page_key
      then update_by_type type key (suc st.last_request_id)
          (record st { last_request_id = suc st.last_request_id })
      else (none, st)

  -- `setPage` up to its first `await`.
  unfoldable pub set_page : Text → PageType → PageState → Option Waits × PageState
  unfolding update_page_contents lookup
  set_page key type st =
      if is_virtual type && not (is_there (lookup key st.virtual_pages))
      then (none, record st { error = some (codes "Virtual page not found") })
      else update_page_contents key type (record st {
        file_ids = [];
        file_id_to_index = [];
        active_page_key = some key;
        page_type = type;
        error = none;
        is_loading_files = true;
        is_loading_awake = true;
        loaded_files = [];
        selected_page_keys =
            (if has_key key st.selected_page_keys then st.selected_page_keys else key ∷ []);
      })

  abbrev pub set_first : Option (Text × PageType) → PageState → Option Waits × PageState
  set_first none st = (none, st)
  set_first (some (key, type)) st = set_page key type st

  -- `fetchPages` behind the client's reply.
  unfoldable pub fetch_pages : Option (List ApiPage) → PageState → Option Waits × PageState
  unfolding set_page
  fetch_pages none st = (none, record st { error = some (codes "Failed to fetch pages") })
  fetch_pages (some pages) st =
      set_first (first_page st.active_page_key pages) (record st { pages = pages })
