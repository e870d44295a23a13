-- ===== src/Store/Page/Files.antt =====
-- The files of a virtual page, and the selected files of a page, in store/pageStore.ts.
use hydrui.Base.{
  ℕ, ◌≡◌, refl, sym, ap, subst, ◌∙◌, Bool, true, false, not, ◌&&◌, ◌||◌, Option, none, some, List,
  [], ◌++◌, arith, Text, eq_text, eq_text_refl, if◌then◌else◌, lookup, insert, lookup-insert,
  lookup-delete, unique, filter, outside, has, has-append, has-filter, has-unique, Distinct,
  Distinct-append, Distinct-filter, Distinct-unique,
}
use hydrui.Store.Page.{PageState, VirtualPage}
use hydrui.Store.Page.Virtual.{
  add_files_to_page, remove_files_from_page, change_page, with_files, without_files,
  add_selected_files, clear_selected_files, or_empty,
}

change_page-lookup :
    (change : VirtualPage → VirtualPage) (key j : Text) (page : VirtualPage) (st : PageState)
    → lookup key st.virtual_pages ≡ some page
    → lookup j (change_page change key (lookup key st.virtual_pages) st).virtual_pages
      ≡ (if eq_text key j then some (change page) else lookup j st.virtual_pages)
change_page-lookup change key j page st e =
    ap (λ o. lookup j (change_page change key o st).virtual_pages) e
    ∙ lookup-insert key j (change page) st.virtual_pages

has-with_files :
    (a : ℕ) (added : List ℕ) (page : VirtualPage)
    → has a (with_files added page).file_ids ≡ (has a page.file_ids || has a added)
has-with_files a added page = ground (
  arith,
  has-append a page.file_ids (filter (outside page.file_ids) added),
  has-filter a (outside page.file_ids) added,
)

with_files-Distinct :
    (added : List ℕ) (page : VirtualPage)
    → Distinct page.file_ids
    → Distinct added
    → Distinct (with_files added page).file_ids
with_files-Distinct added page d k =
    Distinct-append page.file_ids _ d (Distinct-filter _ added k)
      (λ a m. ground (arith, has-filter a (outside page.file_ids) added))

-- An addition and a removal of files change the one page that there is under the key: its files become those
-- that it had or that are added, and those that it had and that are not removed. A page with no file twice stays one.
pub add_files_to_page-remove_files_from_page :
    (key : Text) (page : VirtualPage) (added removed : List ℕ) (st : PageState)
    → lookup key st.virtual_pages ≡ some page
    → (now : VirtualPage) × (rest : VirtualPage) × ((j : Text)
        → lookup j (add_files_to_page key added st).virtual_pages
          ≡ (if eq_text key j then some now else lookup j st.virtual_pages))
      × ((j : Text)
          → lookup j
              (remove_files_from_page key removed (add_files_to_page key added st)).virtual_pages
            ≡ (if eq_text key j then some rest else lookup j st.virtual_pages))
      × ((a : ℕ) → has a now.file_ids ≡ (has a page.file_ids || has a added))
      × ((a : ℕ)
          → has a rest.file_ids ≡ (not (has a removed) && (has a page.file_ids || has a added)))
      × (Distinct page.file_ids → Distinct added → Distinct now.file_ids × Distinct rest.file_ids)
      × (now.name ≡ page.name)
      × (rest.name ≡ page.name)
unfolding add_files_to_page remove_files_from_page
add_files_to_page-remove_files_from_page key page added removed st e =
    let now = with_files added page in
    let rest = without_files removed now in
    let st' = change_page (with_files added) key (lookup key st.virtual_pages) st in
    let there : lookup key st'.virtual_pages ≡ some now =
      change_page-lookup (with_files added) key key page st e
      ∙ ap (λ b. if b then some now else lookup key st.virtual_pages) (eq_text_refl key) in
    (
      now,
      rest,
      λ j. change_page-lookup (with_files added) key j page st e,
      λ j.
          change_page-lookup (without_files removed) key j now st' there
          ∙ ap (λ o. if eq_text key j then some rest else o)
              (change_page-lookup (with_files added) key j page st e)
          ∙ twice (eq_text key j) rest now (lookup j st.virtual_pages),
      λ a. has-with_files a added page,
      λ a.
          has-filter a (outside removed) now.file_ids
          ∙ ap (λ b. not (has a removed) && b) (has-with_files a added page),
      λ d k.
          let now_distinct = with_files-Distinct added page d k in
          (now_distinct, Distinct-filter (outside removed) now.file_ids now_distinct),
      refl,
      refl,
    )
  where
    twice :
        (b : Bool) (x y : VirtualPage) (o : Option VirtualPage)
        → (if b then some x else if b then some y else o) ≡ (if b then some x else o)
    twice true x y o = refl
    twice false x y o = refl

-- What is selected on a page once files are added: each file that was or is, once. The other pages keep
-- their selections, and a page whose selection is cleared has none.
pub add_selected_files-lookup :
    (key j : Text) (ids : List ℕ) (st : PageState)
    → let was = or_empty (lookup key st.selected_files_by_page) in
      let now = or_empty (lookup key (add_selected_files key ids st).selected_files_by_page) in
      Distinct now
      × ((a : ℕ) → has a now ≡ (has a was || has a ids))
      × (eq_text key j ≡ false
          → lookup j (add_selected_files key ids st).selected_files_by_page
            ≡ lookup j st.selected_files_by_page)
      × (lookup key
            (clear_selected_files key (add_selected_files key ids st)).selected_files_by_page
          ≡ none)
unfolding add_selected_files clear_selected_files
add_selected_files-lookup key j ids st =
    let was = or_empty (lookup key st.selected_files_by_page) in
    let now = unique [] (was ++ ids) in
    let d = st.selected_files_by_page in
    let there : or_empty (lookup key (insert key now d)) ≡ now = ap or_empty (
      lookup-insert key key now d
      ∙ ap (λ b. if b then some now else lookup key d) (eq_text_refl key)) in
    (
      subst Distinct (sym there) (Distinct-unique [] (was ++ ids)),
      λ a. ap (has a) there ∙ has-unique a [] (was ++ ids) ∙ has-append a was ids,
      λ other. lookup-insert key j now d ∙ ap (λ b. if b then some now else lookup j d) other,
      lookup-delete key key (insert key now d)
          ∙ ap (λ b. if b then none else lookup key (insert key now d)) (eq_text_refl key),
    )
