-- ===== src/Store/Page/Runs.antt =====
-- A load of store/pageStore.ts with an honest client, one step at a time: replies, demands of other actions, a
-- pause and its end, in any order.
use hydrui.Base.{
  ℕ, ◌≡◌, Bool, some, List, ◌∷◌, [], ◌++◌, map, length, Text, total, has, Distinct, ◌⊎◌, ◌+◌, ◌≤◌,
  ◌/◌, ◌*◌, get_elem?, true,
}
use hydrui.Store.Page.{PageState, FileMetadata}
use hydrui.Store.Page.Chunks.{chunk_at, split}
use hydrui.Store.Page.Load.{
  Loader, Place, fetching, pausing, ready, done, update_with_file_ids, respond, proceed,
  set_is_loading_paused, is_current, filled,
}
use hydrui.Store.Page.Controller.{reprioritize}

-- What another action of the store leaves alone while the page is shown.
pub record SameLoad (s t : PageState) : Type 0 where
  pub page : t.active_page_key ≡ s.active_page_key
  pub request : t.last_request_id ≡ s.last_request_id
  pub files : t.loaded_files ≡ s.loaded_files
  pub count : t.loaded_file_count ≡ s.loaded_file_count

module _ (ids : List ℕ) (key : Text) (request_id : ℕ) (meta : ℕ → FileMetadata) where
  pub data Run : Loader → PageState → Type 0 where
    began :
        (threshold : ℕ) (s : PageState) {l : Loader} {t : PageState}
        → update_with_file_ids threshold ids key request_id s ≡ (some l, t)
        → Run l t
    answered :
        (c : ℕ) {l : Loader} {s : PageState}
        → Run l s
        → l.place ≡ fetching c
        → Run
            (respond c (map meta (chunk_at ids c)) l s).0
            (respond c (map meta (chunk_at ids c)) l s).1
    went_on :
        {l : Loader} {s : PageState}
        → Run l s
        → l.place ≡ ready
        → Run (proceed l s).0 (proceed l s).1
    demanded :
        (files : List ℕ) {l : Loader} {s : PageState}
        → Run l s
        → Run (reprioritize files l s).0 (reprioritize files l s).1
    paused :
        (b : Bool) {l : Loader} {s : PageState}
        → Run l s
        → Run (set_is_loading_paused b l s).0 (set_is_loading_paused b l s).1
    other : {l : Loader} {s : PageState} (t : PageState) → Run l s → SameLoad s t → Run l t

-- The chunk whose reply a load waits for.
abbrev pub in_flight : Place → List ℕ
in_flight (fetching c) = c ∷ []
in_flight pausing = []
in_flight ready = []
in_flight done = []

-- The chunks that are not loaded.
abbrev pub open_chunks : Loader → List ℕ
open_chunks l = in_flight l.place ++ l.file_id_chunks

-- What holds of a load with the chunks `cs` to go.
pub record Loads (ids : List ℕ) (meta : ℕ → FileMetadata) (cs : List ℕ) (l : Loader)
    (st : PageState) : Type 0 where
  pub index : l.file_id_to_index ≡ (split ids).index_of
  pub chunk : l.file_id_to_chunk ≡ (split ids).chunk_of
  pub current : is_current l st ≡ true
  pub promises : (c : ℕ) → has c l.chunk_to_promise ≡ has c cs
  pub distinct : Distinct cs
  pub covered :
      (p a : ℕ)
      → get_elem? ids p ≡ some a
      → (has (p / 256 * 256) cs ≡ true) ⊎ (filled st.loaded_files p ≡ some (meta a))
  pub short : length st.loaded_files ≤ length ids
  pub counted : l.loaded_file_count + total (λ c. length (chunk_at ids c)) cs ≡ length ids
  pub shown_count : st.loaded_file_count ≡ l.loaded_file_count

pub record IsLoading (ids : List ℕ) (meta : ℕ → FileMetadata) (l : Loader) (st : PageState)
    : Type 0 where
  pub loads : Loads ids meta (open_chunks l) l st
  pub ended : l.place ≡ done → l.file_id_chunks ≡ []
  -- A load that pauses can be woken.
  pub rousable : l.place ≡ pausing → l.wakeup ≡ true
