-- ===== src/Store/Search/Steps.antt =====
-- What can happen to the store of store/searchStore.ts, one step at a time.
use hydrui.Base.{ℕ, suc, ◌≡◌, ◌≢◌, Bool, Text, List, ◌∷◌}
use hydrui.Store.Search.{
  SearchState, Request, Promise, start, set_search_tags, add_search_tag, remove_search_tag,
  set_search_sort, set_search_ascending, set_auto_search, perform_search, answer, settle,
}

-- A call of `performSearch` that stands at its `await`.
pub data Runs (r : Request) : List Request → Type 0 where
  here : {rs : List Request} → Runs r (r ∷ rs)
  further : {q : Request} {rs : List Request} → Runs r rs → Runs r (q ∷ rs)

pub data Step (st : SearchState) : SearchState → Type 0 where
  set_tags : (tags : List Text) → Step st (set_search_tags tags st)
  add_tag : (tag : Text) → Step st (add_search_tag tag st)
  remove_tag : (tag : Text) → Step st (remove_search_tag tag st)
  set_sort : (sort : ℕ) → Step st (set_search_sort sort st)
  set_ascending : (ascending : Bool) → Step st (set_search_ascending ascending st)
  set_auto : (on : Bool) → Step st (set_auto_search on st)
  -- A caller, or a timer.
  perform : Step st (perform_search st)
  fire : (n : ℕ) → st.timers ≡ suc n → Step st (perform_search (record st { timers = n }))
  -- The client's promise for the call `k` is settled.
  respond : (k : ℕ) (p : Promise) → Step st (record st { requests = answer k p st.requests })
  -- A call whose promise is settled goes on.
  go_on : (r : Request) → Runs r st.requests → r.promise ≢ Promise.waiting → Step st (settle r st)

pub data Reachable (import_time : ℕ) : SearchState → Type 0 where
  begin : Reachable import_time (start import_time)
  and_then : {s t : SearchState} → Reachable import_time s → Step s t → Reachable import_time t
