-- ===== src/Store/Popup/Polling.antt =====
-- The intervals that the browser runs for store/popupStore.ts.
use hydrui.Base.{
  ℕ, ◌≡◌, refl, ap, ◌∙◌, Bool, true, false, Option, none, some, List, [], ◌∷◌, Text, Bool-cases,
  inl, inr, ltb, arith,
}
use hydrui.Store.Popup.{
  PopupState, JobStatus, start, set_jobs, set_collapsed, set_has_unread, set_error, dismiss_job,
  fetch_jobs, clear_interval, cleared, start_polling, stop_polling, stopped, visibility_change,
  latest,
}

pub data Step (st : PopupState) : PopupState → Type 0 where
  jobs : (js : List JobStatus) → Step st (set_jobs js st)
  collapsed : (b : Bool) → Step st (set_collapsed b st)
  unread : (b : Bool) → Step st (set_has_unread b st)
  error : (e : Option Text) → Step st (set_error e st)
  dismiss : (answers : Bool) (key : Text) → Step st (dismiss_job answers key st)
  fetch : (reply : Option (List JobStatus)) → Step st (fetch_jobs reply st)
  poll : (id : ℕ) → Step st (start_polling id st)
  stop : Step st (stop_polling st)
  visibility : (visible : Bool) (id : ℕ) → Step st (visibility_change visible id st)

pub data Reachable : PopupState → Type 0 where
  begin : Reachable start
  and_then : {s t : PopupState} → Reachable s → Step s t → Reachable t

abbrev pub only : Option ℕ → List ℕ
only none = []
only (some id) = id ∷ []

-- The intervals that run are the one that the store holds, if it holds one.
abbrev pub RunsOne : PopupState → Type 0
RunsOne st = st.intervals ≡ only st.polling_interval

clear_interval-only : (id : ℕ) → clear_interval id (id ∷ []) ≡ []
unfolding clear_interval
clear_interval-only id = ground arith

cleared-only : (o : Option ℕ) → cleared o (only o) ≡ []
cleared-only none = refl
cleared-only (some id) = clear_interval-only id

start_polling-RunsOne : (id : ℕ) (st : PopupState) → RunsOne st → RunsOne (start_polling id st)
unfolding start_polling
start_polling-RunsOne id st h =
    ap (id ∷◌) (ap (cleared st.polling_interval) h ∙ cleared-only st.polling_interval)

fetch_jobs-RunsOne :
    (reply : Option (List JobStatus)) (st : PopupState) → RunsOne st → RunsOne (fetch_jobs reply st)
unfolding fetch_jobs
fetch_jobs-RunsOne none st h = h
fetch_jobs-RunsOne (some js) st h = elim (Bool-cases (ltb st.last_update_timestamp (latest js))) [
  | inl e ↦ rw e h
  | inr e ↦ rw e h
]

stopped-RunsOne :
    (o : Option ℕ) (st : PopupState) → st.polling_interval ≡ o → RunsOne st → RunsOne (stopped o st)
stopped-RunsOne none st e h = h
stopped-RunsOne (some id) st e h = ap (clear_interval id) (h ∙ ap only e) ∙ clear_interval-only id

stop_polling-RunsOne : (st : PopupState) → RunsOne st → RunsOne (stop_polling st)
unfolding stop_polling
stop_polling-RunsOne st h = stopped-RunsOne st.polling_interval st refl h

dismiss_job-RunsOne :
    (b : Bool) (key : Text) (st : PopupState) → RunsOne st → RunsOne (dismiss_job b key st)
unfolding dismiss_job
dismiss_job-RunsOne true key st h = h
dismiss_job-RunsOne false key st h = h

Step-RunsOne : {s t : PopupState} → Step s t → RunsOne s → RunsOne t
unfolding visibility_change
Step-RunsOne (jobs js) h = h
Step-RunsOne (collapsed b) h = h
Step-RunsOne (unread b) h = h
Step-RunsOne (error e) h = h
Step-RunsOne {s} (dismiss answers key) h = dismiss_job-RunsOne answers key s h
Step-RunsOne {s} (fetch reply) h = fetch_jobs-RunsOne reply s h
Step-RunsOne {s} (poll id) h = start_polling-RunsOne id s h
Step-RunsOne {s} stop h = stop_polling-RunsOne s h
Step-RunsOne {s} (visibility true id) h = start_polling-RunsOne id s h
Step-RunsOne {s} (visibility false id) h = stop_polling-RunsOne s h

-- In every state that the actions, the replies and the listener lead to, the intervals that run are the
-- one that the store holds, or none where it holds none.
pub Reachable-RunsOne : {st : PopupState} → Reachable st → RunsOne st
Reachable-RunsOne begin = refl
Reachable-RunsOne (and_then reached step) = Step-RunsOne step (Reachable-RunsOne reached)
