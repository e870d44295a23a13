-- ===== src/Store/Page/Stale.antt =====
-- Loads of store/pageStore.ts that a newer request has overtaken, and an older request that comes late.
use hydrui.Base.{
  ℕ, suc, ◌≤◌, ◌≡◌, refl, ap, ◌∙◌, Bool, true, false, not, ◌&&◌, Option, none, some, List, [], ◌∷◌,
  arith, is_empty, Text, codes, if◌then◌else◌, ◌==◌, lookup, Bool-cases, inl, inr, has,
}
use hydrui.Store.Page.{PageState, PageType, VirtualPage, FileMetadata, abort_current}
use hydrui.Store.Page.Load.{
  Loader, done, is_active, is_current, proceed, fetch_first, fail, respond, finished,
  update_with_file_ids, new_loader, opened, emptied,
}
use hydrui.Store.Page.Update.{
  PageInfo, load_of, update_virtual, update_by_type, update_page_contents, info_reply,
}

proceed-last_request_id :
    (l : Loader) (st : PageState) → (proceed l st).1.last_request_id ≡ st.last_request_id
unfolding proceed fail
proceed-last_request_id l st = of_queue l.file_id_chunks
  where
    of_fail :
        (l : Loader) (b : Bool)
        → (if b then finished st else st).last_request_id ≡ st.last_request_id
    of_fail l true = refl
    of_fail l false = refl

    of_queue : (q : List ℕ) → (fetch_first q l st).1.last_request_id ≡ st.last_request_id
    of_queue [] = of_fail l (is_current l st)
    of_queue (c ∷ q) = ground arith

update_with_file_ids-last_request_id :
    (threshold : ℕ) (ids : List ℕ) (key : Text) (request_id : ℕ) (st : PageState)
    → (load_of (update_with_file_ids threshold ids key request_id st)).1.last_request_id
      ≡ st.last_request_id
unfolding update_with_file_ids abort_current opened
update_with_file_ids-last_request_id threshold ids key request_id st =
    of_tests (not (is_active key st.active_page_key)) (is_empty ids)
      (is_current (new_loader ids key request_id) (abort_current st))
  where
    begun : Loader × PageState
    begun =
        proceed (new_loader ids key request_id) (opened threshold ids request_id (abort_current st))

    of_tests :
        (a b c : Bool)
        → (load_of (
            if a
            then (none, st)
            else if b
            then (none, emptied (abort_current st))
            else if c
            then (some begun.0, begun.1)
            else (none, abort_current st))).1.last_request_id
          ≡ st.last_request_id
    of_tests true b c = refl
    of_tests false true c = refl
    of_tests false false true =
        proceed-last_request_id (new_loader ids key request_id)
          (opened threshold ids request_id (abort_current st))
    of_tests false false false = refl

-- Every update of the page that is shown takes a request of its own.
update_page_contents-last_request_id :
    (threshold : ℕ) (results : List ℕ) (key : Text) (type : PageType) (st : PageState)
    → is_active key st.active_page_key ≡ true
    → (update_page_contents threshold results key type st).1.last_request_id
      ≡ suc st.last_request_id
unfolding update_page_contents
update_page_contents-last_request_id threshold results key type st e = rw e (of_type type)
  where
    st' : PageState
    st' = record st { last_request_id = suc st.last_request_id }

    of_page :
        (o : Option VirtualPage)
        → (update_virtual threshold results key (suc st.last_request_id) o st').1.last_request_id
          ≡ suc st.last_request_id
    of_page none = refl
    of_page (some page) = update_with_file_ids-last_request_id threshold page.file_ids key _ _

    of_type :
        (type : PageType)
        → (update_by_type threshold results type key (suc st.last_request_id) st').1.last_request_id
          ≡ suc st.last_request_id
    of_type PageType.hydrus = refl
    of_type PageType.search = update_with_file_ids-last_request_id threshold results key _ _
    of_type PageType.virtual = of_page (lookup key st.virtual_pages)

-- A load that is not the current one changes nothing of the store.
module _ (l : Loader) (st : PageState) (stale : is_current l st ≡ false) where
  fail-stale : (b : Bool) → (fail b l st).1 ≡ st
  unfolding fail
  fail-stale b = rw stale refl

  respond-stale : (c : ℕ) (files : List FileMetadata) → (respond c files l st).1 ≡ st
  unfolding respond
  respond-stale c files = rw stale refl

  proceed-stale : (proceed l st).1 ≡ st
  unfolding proceed is_current fail
  proceed-stale = of_queue l.file_id_chunks
    where
      failed : PageState
      failed = record (finished st) { error = some (codes "Failed to load file data") }

      of_queue : (q : List ℕ) → (fetch_first q l st).1 ≡ st
      of_queue [] = ap (λ b. if b then finished st else st) stale
      of_queue (c ∷ q) = elim (Bool-cases (has c l.chunk_to_promise)) [
        | inl e ↦ rw e refl
        | inr e ↦ rw e (ap (λ b. if b && true then failed else st) stale)
      ]

overtaken-is_current :
    (l : Loader) (n : ℕ) (st : PageState)
    → l.request_id ≤ n
    → st.last_request_id ≡ suc n
    → is_current l st ≡ false
unfolding is_current
overtaken-is_current l n st older newer =
    let apart : (st.last_request_id == l.request_id) ≡ false = ground arith in
    ap (is_active l.page_key st.active_page_key &&◌) apart ∙ and_false _
  where
    and_false : (b : Bool) → (b && false) ≡ false
    and_false true = refl
    and_false false = refl

-- Once the page that is shown is updated, no load that began before can change the store: not by a reply, not
-- when it goes on, and not by its failure.
pub update_page_contents-stale :
    (threshold : ℕ) (results : List ℕ) (key : Text) (type : PageType) (l : Loader) (st : PageState)
    → is_active key st.active_page_key ≡ true
    → l.request_id ≤ st.last_request_id
    → ((c : ℕ) (files : List FileMetadata)
        → (respond c files l (update_page_contents threshold results key type st).1).1
          ≡ (update_page_contents threshold results key type st).1)
      × ((proceed l (update_page_contents threshold results key type st).1).1
          ≡ (update_page_contents threshold results key type st).1)
      × ((is_abort : Bool)
          → (fail is_abort l (update_page_contents threshold results key type st).1).1
            ≡ (update_page_contents threshold results key type st).1)
update_page_contents-stale threshold results key type l st e older =
    let st' = (update_page_contents threshold results key type st).1 in
    let stale =
      overtaken-is_current l st.last_request_id st' older
        (update_page_contents-last_request_id threshold results key type st e) in
    (respond-stale l st' stale, proceed-stale l st' stale, fail-stale l st' stale)

fail-done : (l : Loader) (st : PageState) → (fail true l st).0.place ≡ done
unfolding fail
fail-done l st = refl

fail-abort : (l : Loader) (st : PageState) → (fail true l st).1 ≡ st
unfolding fail
fail-abort l st = elim (Bool-cases (is_current l st)) [ inl e ↦ rw e refl | inr e ↦ rw e refl ]

info_reply-late :
    (threshold : ℕ) (key : Text) (older : ℕ) (info : PageInfo) (k : ℕ) (st : PageState)
    → is_active key st.active_page_key ≡ true
    → is_empty info.hash_ids ≡ false
    → (st.last_request_id == older) ≡ false
    → st.current_abort_controller ≡ some k
    → info_reply threshold key older (some info) st
      ≡ (none, record st { page_name = some info.name; aborted = k ∷ st.aborted })
unfolding info_reply update_with_file_ids abort_current new_loader is_current
info_reply-late threshold key older info k st active some_files late running =
    simp (active, some_files, late, running) refl

-- A reply with files for an older request of the page that is shown. It begins no load, and it aborts the load
-- that runs: that load then fails as one that was aborted, which shows no error and does not end the loading.
pub info_reply-aborts :
    (threshold : ℕ) (key : Text) (older : ℕ) (info : PageInfo) (l : Loader) (st : PageState)
    → is_active key st.active_page_key ≡ true
    → is_empty info.hash_ids ≡ false
    → (st.last_request_id == older) ≡ false
    → st.current_abort_controller ≡ some l.request_id
    → ((info_reply threshold key older (some info) st).0 ≡ none)
      × ((info_reply threshold key older (some info) st).1.aborted ≡ l.request_id ∷ st.aborted)
      × ((fail true l (info_reply threshold key older (some info) st).1).0.place ≡ done)
      × ((fail true l (info_reply threshold key older (some info) st).1).1.is_loading_files
          ≡ st.is_loading_files)
      × ((fail true l (info_reply threshold key older (some info) st).1).1.error ≡ st.error)
info_reply-aborts threshold key older info l st active some_files late running =
    let e =
      info_reply-late threshold key older info l.request_id st active some_files late running in
    (
      ap (λ r. r.0) e,
      ap (λ r. r.1.aborted) e,
      fail-done l _,
      ap (λ s. s.is_loading_files) (fail-abort l _) ∙ ap (λ r. r.1.is_loading_files) e,
      ap (λ s. s.error) (fail-abort l _) ∙ ap (λ r. r.1.error) e,
    )
