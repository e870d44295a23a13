-- ===== src/Store/Page/Virtual.antt =====
-- The actions of store/pageStore.ts on page keys, selections and virtual pages. `addFilesToPage` and
-- `removeFilesFromPage` go on to update the page's contents, which is a step of its own.
use hydrui.Base.{
  ℕ, Bool, true, false, not, Option, none, some, List, [], ◌∷◌, ◌++◌, Text, eq_text, if◌then◌else◌,
  lookup, insert, delete, unique, filter, outside, has,
}
use hydrui.Store.Page.{PageState, PageType, VirtualPage}

abbrev pub set_selected_page_keys : List Text → PageState → PageState
set_selected_page_keys keys st = record st { selected_page_keys = keys }

abbrev pub add_selected_page_key : Text → PageState → PageState
add_selected_page_key key st = record st {
  selected_page_keys = st.selected_page_keys ++ (key ∷ []);
}

abbrev pub remove_selected_page_key : Text → PageState → PageState
remove_selected_page_key key st = record st {
  selected_page_keys = filter (λ k. not (eq_text k key)) st.selected_page_keys;
}

abbrev pub or_empty {ℓ} : {A : Type ℓ} → Option (List A) → List A
or_empty none = []
or_empty (some xs) = xs

unfoldable pub set_selected_files : Text → List ℕ → PageState → PageState
unfolding insert
set_selected_files key file_ids st = record st {
  selected_files_by_page = insert key file_ids st.selected_files_by_page;
}

-- `[...new Set([...selected, ...fileIds])]`
unfoldable pub add_selected_files : Text → List ℕ → PageState → PageState
unfolding insert unique lookup
add_selected_files key file_ids st =
    let selected = or_empty (lookup key st.selected_files_by_page) in
    record st {
      selected_files_by_page =
          insert key (unique [] (selected ++ file_ids)) st.selected_files_by_page;
    }

unfoldable pub clear_selected_files : Text → PageState → PageState
unfolding delete
clear_selected_files key st = record st {
  selected_files_by_page = delete key st.selected_files_by_page;
}

unfoldable pub set_active_file_id : Text → Option ℕ → PageState → PageState
unfolding insert
set_active_file_id key file_id st = record st {
  active_file_by_page = insert key file_id st.active_file_by_page;
}

unfoldable pub add_virtual_page : Text → VirtualPage → PageState → PageState
unfolding insert
add_virtual_page key page st = record st {
  virtual_pages = insert key page st.virtual_pages;
  virtual_page_keys = st.virtual_page_keys ++ (key ∷ []);
}

-- `removeVirtualPage`, and whether it calls `setPage` for the search page.
unfoldable pub remove_virtual_page : Text → PageState → PageState
unfolding delete filter
remove_virtual_page key st = record st {
  virtual_pages = delete key st.virtual_pages;
  virtual_page_keys = filter (λ k. not (eq_text k key)) st.virtual_page_keys;
}

abbrev pub is_key : Text → Option Text → Bool
is_key key none = false
is_key key (some k) = eq_text k key

abbrev pub is_virtual : PageType → Bool
is_virtual PageType.virtual = true
is_virtual PageType.search = false
is_virtual PageType.hydrus = false

abbrev pub leaves_page : Text → PageState → Bool
leaves_page key st = if is_key key st.active_page_key then is_virtual st.page_type else false

-- A field of the updates that is not given stays what it was.
pub record PageUpdates : Type 0 where
  pub name : Option Text
  pub file_ids : Option (List ℕ)

abbrev pub given_or {ℓ} : {A : Type ℓ} → Option A → A → A
given_or none a = a
given_or (some b) a = b

abbrev pub change_page :
    (VirtualPage → VirtualPage) → Text → Option VirtualPage → PageState → PageState
change_page change key none st = st
change_page change key (some page) st = record st {
  virtual_pages = insert key (change page) st.virtual_pages;
}

unfoldable pub update_virtual_page : Text → PageUpdates → PageState → PageState
unfolding insert lookup
update_virtual_page key updates st =
    change_page
      (λ page. record {
        name = given_or updates.name page.name;
        file_ids = given_or updates.file_ids page.file_ids;
      })
      key (lookup key st.virtual_pages) st

abbrev pub with_files : List ℕ → VirtualPage → VirtualPage
with_files added page = record page {
  file_ids = page.file_ids ++ filter (outside page.file_ids) added;
}

abbrev pub without_files : List ℕ → VirtualPage → VirtualPage
without_files removed page = record page { file_ids = filter (outside removed) page.file_ids }

-- `addFilesToPage` and `removeFilesFromPage` of a virtual page, up to the update of its contents.
unfoldable pub add_files_to_page : Text → List ℕ → PageState → PageState
unfolding insert lookup filter has
add_files_to_page key added st = change_page (with_files added) key (lookup key st.virtual_pages) st

unfoldable pub remove_files_from_page : Text → List ℕ → PageState → PageState
unfolding insert lookup filter has
remove_files_from_page key removed st =
    change_page (without_files removed) key (lookup key st.virtual_pages) st
