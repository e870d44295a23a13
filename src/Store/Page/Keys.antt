-- ===== src/Store/Page/Keys.antt =====
-- The virtual pages of store/pageStore.ts and the list of their keys.
use hydrui.Base.{
  ℕ, ◌≡◌, refl, Bool, true, false, not, ◌&&◌, ◌||◌, Option, none, some, List, [], ◌∷◌, ◌++◌, arith,
  Text, eq_text, eq_text_iff, lookup, lookup-insert, lookup-delete, filter,
}
use hydrui.Store.Page.{PageState, VirtualPage, start}
use hydrui.Store.Page.Virtual.{
  add_virtual_page, remove_virtual_page, update_virtual_page, add_files_to_page,
  remove_files_from_page, change_page, PageUpdates,
}

unfoldable pub has_text : Text → List Text → Bool
has_text k [] = false
has_text k (x ∷ xs) = eq_text x k || has_text k xs

has_text-append :
    (k : Text) (xs ys : List Text) → has_text k (xs ++ ys) ≡ (has_text k xs || has_text k ys)
unfolding has_text
has_text-append k [] ys = refl
has_text-append k (x ∷ xs) ys = ground (arith, has_text-append k xs ys)

has_text-filter :
    (k key : Text) (xs : List Text)
    → has_text k (filter (λ x. not (eq_text x key)) xs) ≡ (not (eq_text k key) && has_text k xs)
unfolding has_text filter
has_text-filter k key [] = ground arith
has_text-filter k key (x ∷ xs) =
    ground (arith, has_text-filter k key xs, eq_text_iff x k, eq_text_iff x key, eq_text_iff k key)

abbrev pub is_some {ℓ} : {A : Type ℓ} → Option A → Bool
is_some none = false
is_some (some _) = true

-- What changes the virtual pages.
pub data PageStep (s : PageState) : PageState → Type 0 where
  added : (key : Text) (page : VirtualPage) → PageStep s (add_virtual_page key page s)
  removed : (key : Text) → PageStep s (remove_virtual_page key s)
  updated : (key : Text) (updates : PageUpdates) → PageStep s (update_virtual_page key updates s)
  files_added : (key : Text) (ids : List ℕ) → PageStep s (add_files_to_page key ids s)
  files_removed : (key : Text) (ids : List ℕ) → PageStep s (remove_files_from_page key ids s)
  -- Any other action.
  elsewhere :
      (t : PageState)
      → t.virtual_pages ≡ s.virtual_pages
      → t.virtual_page_keys ≡ s.virtual_page_keys
      → PageStep s t

pub data PagesReach : PageState → Type 0 where
  begin : PagesReach start
  and_then : {s t : PageState} → PagesReach s → PageStep s t → PagesReach t

-- The keys in the list are those of the pages.
pub record KeysMatch (s : PageState) : Type 0 where
  pub match : (k : Text) → has_text k s.virtual_page_keys ≡ is_some (lookup k s.virtual_pages)

change_page-KeysMatch :
    (change : VirtualPage → VirtualPage) (key : Text) (s : PageState)
    → KeysMatch s
    → KeysMatch (change_page change key (lookup key s.virtual_pages) s)
change_page-KeysMatch change key s h = of_page (lookup key s.virtual_pages) refl
  where
    of_page :
        (o : Option VirtualPage)
        → lookup key s.virtual_pages ≡ o
        → KeysMatch (change_page change key o s)
    of_page none e = h
    of_page (some page) e = record {
      match = λ k. ground (
        arith,
        h.match k,
        h.match key,
        lookup-insert key k (change page) s.virtual_pages,
        eq_text_iff key k,
      );
    }

PageStep-KeysMatch : {s t : PageState} → PageStep s t → KeysMatch s → KeysMatch t
unfolding add_virtual_page remove_virtual_page update_virtual_page add_files_to_page
    remove_files_from_page has_text
PageStep-KeysMatch {s} (added key page) h = record {
  match = λ k. ground (
    arith,
    h.match k,
    has_text-append k s.virtual_page_keys (key ∷ []),
    lookup-insert key k page s.virtual_pages,
  );
}
PageStep-KeysMatch {s} (removed key) h = record {
  match = λ k. ground (
    arith,
    h.match k,
    has_text-filter k key s.virtual_page_keys,
    lookup-delete key k s.virtual_pages,
    eq_text_iff k key,
    eq_text_iff key k,
  );
}
PageStep-KeysMatch {s} (updated key updates) h = change_page-KeysMatch _ key s h
PageStep-KeysMatch {s} (files_added key ids) h = change_page-KeysMatch _ key s h
PageStep-KeysMatch {s} (files_removed key ids) h = change_page-KeysMatch _ key s h
PageStep-KeysMatch {s} (elsewhere t pages keys) h = record {
  match = λ k. cc (pages, keys, h.match k);
}

-- In every state that the actions lead to, the keys in the list are exactly those of the virtual pages.
pub PagesReach-KeysMatch : {s : PageState} → PagesReach s → KeysMatch s
unfolding has_text lookup
PagesReach-KeysMatch begin = record { match = λ k. refl }
PagesReach-KeysMatch (and_then r step) = PageStep-KeysMatch step (PagesReach-KeysMatch r)
