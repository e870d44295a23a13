-- ===== src/Store/Search.antt =====
-- The store of store/searchStore.ts, and what runs between its actions.
--
-- The state has, beside the fields of `SearchState`, what the event loop holds for them: the timers that
-- `setTimeout` has set, and the calls of `performSearch` that stand at their `await`. The closure that
-- `cancelSearch` holds is named by the serial of its call.
pub mod Steps
pub mod Consistent
pub mod Invariant
pub mod Order
use hydrui.Base.{
  ℕ, zero, suc, ◌+◌, ◌≡◌, Bool, true, false, Option, none, some, List, [], ◌∷◌, ◌++◌, Text, codes,
  eq_text, if◌then◌else◌, ◌==◌, is_empty,
}

pub record Query : Type 0 where
  pub tags : List Text
  pub sort : ℕ
  pub ascending : Bool

-- What the promise of a call is: a rejection has the message of an `Error`, or is something else.
pub data Promise : Type 0 where
  waiting : Promise
  resolved : List ℕ → Promise
  rejected : Option Text → Promise

pub record Request : Type 0 where
  pub serial : ℕ
  pub query : Query
  pub promise : Promise

pub data SearchStatus : Type 0 where
  initial loading loaded : SearchStatus

pub record SearchState : Type 0 where
  pub search_tags : List Text
  pub search_sort : ℕ
  pub search_ascending : Bool
  pub search_results : List ℕ
  pub search_status : SearchStatus
  pub search_error : Option Text
  pub auto_search : Bool
  pub cancel_search : Option ℕ
  pub serial : ℕ
  pub requests : List Request
  pub timers : ℕ

abbrev pub start : ℕ → SearchState
start import_time = record {
  search_tags = [];
  search_sort = import_time;
  search_ascending = false;
  search_results = [];
  search_status = initial;
  search_error = none;
  auto_search = true;
  cancel_search = none;
  serial = 0;
  requests = [];
  timers = 0;
}

unfoldable pub includes : Text → List Text → Bool
includes t [] = false
includes t (x ∷ xs) = if eq_text x t then true else includes t xs

unfoldable pub without : Text → List Text → List Text
without t [] = []
without t (x ∷ xs) = if eq_text x t then without t xs else x ∷ without t xs

-- `setTimeout(() => performSearch(), 0)`, if searches are automatic.
unfoldable pub auto : SearchState → SearchState
auto st = if st.auto_search then record st { timers = suc st.timers } else st

unfoldable pub set_search_tags : List Text → SearchState → SearchState
unfolding auto
set_search_tags tags st = auto (record st { search_tags = tags })

unfoldable pub add_search_tag : Text → SearchState → SearchState
unfolding set_search_tags includes
add_search_tag tag st =
    if includes tag st.search_tags then st else set_search_tags (st.search_tags ++ (tag ∷ [])) st

unfoldable pub remove_search_tag : Text → SearchState → SearchState
unfolding set_search_tags includes without
remove_search_tag tag st =
    if includes tag st.search_tags then set_search_tags (without tag st.search_tags) st else st

unfoldable pub set_search_sort : ℕ → SearchState → SearchState
unfolding auto
set_search_sort sort st = auto (record st { search_sort = sort })

unfoldable pub set_search_ascending : Bool → SearchState → SearchState
unfolding auto
set_search_ascending ascending st = auto (record st { search_ascending = ascending })

unfoldable pub set_auto_search : Bool → SearchState → SearchState
set_auto_search on st = record st { auto_search = on }

-- A promise is settled once.
abbrev pub settle_promise : Promise → Promise → Promise
settle_promise p waiting = p
settle_promise p (resolved ids) = resolved ids
settle_promise p (rejected e) = rejected e

-- `resolve` or `reject` of the promise of the call `k`.
unfoldable pub answer : ℕ → Promise → List Request → List Request
answer k p [] = []
answer k p (r ∷ rs) =
    (if r.serial == k then record r { promise = settle_promise p r.promise } else r) ∷ answer k p rs

-- A call of `cancelSearch`, where there is one.
unfoldable pub cancel : Option ℕ → List Request → List Request
unfolding answer
cancel none rs = rs
cancel (some k) rs = answer k (rejected (some (codes "Aborted"))) rs

abbrev pub query_of : SearchState → Query
query_of st = record {
  tags = st.search_tags;
  sort = st.search_sort;
  ascending = st.search_ascending;
}

-- `performSearch` up to its `await`.
unfoldable pub perform_search : SearchState → SearchState
unfolding cancel
perform_search st =
    let requests = cancel st.cancel_search st.requests in
    let request : Request = record {
      serial = suc st.serial;
      query = query_of st;
      promise = waiting;
    } in
    if is_empty st.search_tags
    then record st {
      search_results = [];
      search_status = loaded;
      cancel_search = none;
      serial = suc st.serial;
      requests = requests;
    }
    else record st {
      search_status = loading;
      search_error = none;
      cancel_search = some (suc st.serial);
      serial = suc st.serial;
      requests = requests ++ (request ∷ []);
    }

unfoldable pub without_request : ℕ → List Request → List Request
without_request k [] = []
without_request k (r ∷ rs) =
    if r.serial == k then without_request k rs else r ∷ without_request k rs

abbrev pub error_of : Option Text → Option Text
error_of none = some (codes "Unknown error")
error_of (some message) = if eq_text message (codes "Aborted") then none else some message

-- The two calls of `set` behind the `await`, for the newest search.
abbrev pub show : Promise → SearchState → SearchState
show waiting st = st
show (resolved ids) st = record st { search_results = ids; search_status = loaded }
show (rejected e) st = record st {
  search_results = [];
  search_status = loaded;
  search_error = error_of e;
}

-- `performSearch` from its `await` on, with the `finally`.
unfoldable pub settle : Request → SearchState → SearchState
unfolding without_request
settle r st =
    let shown = if st.serial == r.serial then show r.promise st else st in
    record shown { cancel_search = none; requests = without_request r.serial shown.requests }
