-- ===== src/Store/Tests.antt =====
-- Runs of the stores, and their theorems on them.
use hydrui.Base.{suc, ◌≡◌, refl, false, some, [], ◌∷◌, ◌++◌, codes, ◌==◌, is_empty}
use hydrui.Store.Search.{
  SearchState, Request, start, set_search_tags, perform_search, answer, settle, auto, cancel,
  without_request, query_of, resolved, waiting, rejected,
}
use hydrui.Store.Search.Steps.{Reachable, begin, and_then, set_tags, perform}
use hydrui.Store.Search.Consistent.{IsConsistent}
use hydrui.Store.Search.Invariant.{Reachable-IsConsistent}
use hydrui.Store.Search.Order.{settle-settle, settle-perform_search}

-- A search for `a`, and a second one for `b` in front of the reply.
abbrev searching : SearchState
searching = perform_search (set_search_tags (codes "a" ∷ []) (start 2))

abbrev twice : SearchState
twice = perform_search (set_search_tags (codes "b" ∷ []) searching)

searching_twice : Reachable 2 twice
searching_twice =
    and_then
      (and_then (and_then (and_then begin (set_tags (codes "a" ∷ []))) perform)
        (set_tags (codes "b" ∷ [])))
      perform

abbrev aborted : Request
aborted = record {
  serial = 1;
  query = record { tags = codes "a" ∷ []; sort = 2; ascending = false };
  promise = rejected (some (codes "Aborted"));
}

abbrev newest : Request
newest = record {
  serial = 2;
  query = record { tags = codes "b" ∷ []; sort = 2; ascending = false };
  promise = waiting;
}

-- The second search has aborted the first one.
twice_requests : twice.requests ≡ aborted ∷ newest ∷ []
unfolding perform_search set_search_tags auto cancel answer
twice_requests = refl

twice_serial : (twice.serial == 1) ≡ false
unfolding perform_search set_search_tags auto
twice_serial = refl

twice_tags : is_empty twice.search_tags ≡ false
unfolding perform_search set_search_tags auto
twice_tags = refl

Reachable-IsConsistent_example : IsConsistent twice
Reachable-IsConsistent_example = Reachable-IsConsistent 2 searching_twice

abbrev replied : Request
replied = record newest { promise = resolved (7 ∷ []) }

settle-settle_example :
    settle aborted (settle replied twice) ≡ settle replied (settle aborted twice)
settle-settle_example = settle-settle aborted replied twice refl

-- Once the aborted search has gone on, a third search does not abort the second one.
settle-perform_search_example :
    (perform_search (settle aborted twice)).requests
    ≡ without_request 1 twice.requests
      ++ (record { serial = suc twice.serial; query = query_of twice; promise = waiting } ∷ [])
settle-perform_search_example = settle-perform_search aborted twice twice_serial twice_tags
