-- ===== src/Store/Search/Invariant.antt =====
-- The steps of the store of store/searchStore.ts, and what they keep.
use hydrui.Base.{ℕ, ◌≡◌, ◌≢◌, refl, sym, ◌∙◌, none, List, Text, Bool-cases, inl, inr, ◌==◌}
use hydrui.Store.Search.{
  SearchState, Request, Promise, set_search_tags, add_search_tag, remove_search_tag,
  set_search_sort, set_search_ascending, set_auto_search, answer, settle, auto, show, includes,
  without_request,
}
use hydrui.Store.Search.Steps.{
  Step, Reachable, begin, and_then, set_tags, add_tag, remove_tag, set_sort, set_ascending,
  set_auto, perform, fire, respond, go_on,
}
use hydrui.Store.Search.Consistent.{
  IsConsistent, IsOrdered, answer-IsOrdered, answer-Bounded, answer-IsRunning,
  without_request-IsOrdered, without_request-Bounded, without_request-IsRunning,
  perform_search-IsConsistent,
}

-- The other fields do not matter.
IsConsistent-kept :
    (s t : SearchState)
    → s.requests ≡ t.requests
    → s.serial ≡ t.serial
    → s.search_status ≡ t.search_status
    → s.cancel_search ≡ t.cancel_search
    → IsConsistent s
    → IsConsistent t
IsConsistent-kept s t requests serial status cancel h = record {
  ordered = rw (← requests) h.ordered;
  bounded = rw (← requests, ← serial) h.bounded;
  running = λ is_loading. rw (← requests, ← serial) (h.running (status ∙ is_loading));
  handle = λ k same.
      let (newest, is_loading) = h.handle k (cancel ∙ same) in
      (newest ∙ serial, sym status ∙ is_loading);
}

auto-IsConsistent : (st : SearchState) → IsConsistent st → IsConsistent (auto st)
unfolding auto
auto-IsConsistent st h = elim (Bool-cases st.auto_search) [
  | inl e ↦ rw e (IsConsistent-kept st _ refl refl refl refl h)
  | inr e ↦ rw e (IsConsistent-kept st _ refl refl refl refl h)
]

set_search_tags-IsConsistent :
    (tags : List Text) (st : SearchState) → IsConsistent st → IsConsistent (set_search_tags tags st)
unfolding set_search_tags
set_search_tags-IsConsistent tags st h =
    auto-IsConsistent _
      (IsConsistent-kept st (record st { search_tags = tags }) refl refl refl refl h)

add_search_tag-IsConsistent :
    (tag : Text) (st : SearchState) → IsConsistent st → IsConsistent (add_search_tag tag st)
unfolding add_search_tag
add_search_tag-IsConsistent tag st h = elim (Bool-cases (includes tag st.search_tags)) [
  | inl e ↦ rw e h
  | inr e ↦ rw e (set_search_tags-IsConsistent _ st h)
]

remove_search_tag-IsConsistent :
    (tag : Text) (st : SearchState) → IsConsistent st → IsConsistent (remove_search_tag tag st)
unfolding remove_search_tag
remove_search_tag-IsConsistent tag st h = elim (Bool-cases (includes tag st.search_tags)) [
  | inl e ↦ rw e (set_search_tags-IsConsistent _ st h)
  | inr e ↦ rw e h
]

respond-IsConsistent :
    (k : ℕ) (p : Promise) (st : SearchState)
    → IsConsistent st
    → IsConsistent (record st { requests = answer k p st.requests })
respond-IsConsistent k p st h = record {
  ordered = answer-IsOrdered 0 k p st.requests h.ordered;
  bounded = answer-Bounded st.serial k p st.requests h.bounded;
  running = λ is_loading. answer-IsRunning st.serial k p (h.running is_loading);
  handle = h.handle;
}

-- The newest call that goes on ends the loading.
newest-IsConsistent :
    (r : Request) (p : Promise) (st : SearchState)
    → p ≢ Promise.waiting
    → IsConsistent st
    → IsConsistent (record (show p st) {
      cancel_search = none;
      requests = without_request r.serial (show p st).requests;
    })
newest-IsConsistent r Promise.waiting st settled h = absurd (settled refl)
newest-IsConsistent r (Promise.resolved ids) st settled h = record {
  ordered = without_request-IsOrdered 0 r.serial st.requests h.ordered;
  bounded = without_request-Bounded st.serial r.serial st.requests h.bounded;
  running = λ is_loading. cc;
  handle = λ k same. cc;
}
newest-IsConsistent r (Promise.rejected e) st settled h = record {
  ordered = without_request-IsOrdered 0 r.serial st.requests h.ordered;
  bounded = without_request-Bounded st.serial r.serial st.requests h.bounded;
  running = λ is_loading. cc;
  handle = λ k same. cc;
}

settle-IsConsistent :
    (r : Request) (st : SearchState)
    → r.promise ≢ Promise.waiting
    → IsConsistent st
    → IsConsistent (settle r st)
unfolding settle
settle-IsConsistent r st settled h = elim (Bool-cases (st.serial == r.serial)) [
  | inl e ↦ rw e (newest-IsConsistent r r.promise st settled h)
  | inr e ↦ rw e (record {
    ordered = without_request-IsOrdered 0 r.serial st.requests h.ordered;
    bounded = without_request-Bounded st.serial r.serial st.requests h.bounded;
    running = λ is_loading. without_request-IsRunning st.serial r.serial e (h.running is_loading);
    handle = λ k same. cc;
  })
]

Step-IsConsistent : {s t : SearchState} → Step s t → IsConsistent s → IsConsistent t
unfolding set_search_sort set_search_ascending set_auto_search
Step-IsConsistent {s} (set_tags tags) h = set_search_tags-IsConsistent tags s h
Step-IsConsistent {s} (add_tag tag) h = add_search_tag-IsConsistent tag s h
Step-IsConsistent {s} (remove_tag tag) h = remove_search_tag-IsConsistent tag s h
Step-IsConsistent {s} (set_sort sort) h =
    auto-IsConsistent (record s { search_sort = sort })
      (IsConsistent-kept s _ refl refl refl refl h)
Step-IsConsistent {s} (set_ascending ascending) h =
    auto-IsConsistent (record s { search_ascending = ascending })
      (IsConsistent-kept s _ refl refl refl refl h)
Step-IsConsistent {s} (set_auto on) h = IsConsistent-kept s _ refl refl refl refl h
Step-IsConsistent {s} perform h = perform_search-IsConsistent s h
Step-IsConsistent {s} (fire n due) h =
    perform_search-IsConsistent (record s { timers = n })
      (IsConsistent-kept s _ refl refl refl refl h)
Step-IsConsistent {s} (respond k p) h = respond-IsConsistent k p s h
Step-IsConsistent {s} (go_on r runs settled) h = settle-IsConsistent r s settled h

-- In every state that is reached, the calls that run have different serials, none above the store's; while
-- the store is loading the newest call runs; and a handle belongs to the newest call.
pub Reachable-IsConsistent :
    (import_time : ℕ) {st : SearchState} → Reachable import_time st → IsConsistent st
unfolding IsOrdered
Reachable-IsConsistent import_time begin = record {
  ordered = tt;
  bounded = tt;
  running = λ is_loading. cc;
  handle = λ k same. cc;
}
Reachable-IsConsistent import_time (and_then reached step) =
    Step-IsConsistent step (Reachable-IsConsistent import_time reached)
