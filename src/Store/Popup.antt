-- ===== src/Store/Popup.antt =====
-- The store of store/popupStore.ts, with the intervals that the browser runs for it.
--
-- A job's `creation_time` is a float of seconds. Every finite float is a whole number of ticks of 2^-1074
-- seconds, and is modelled as that number. An action that awaits the client is what it does once the client has
-- answered or failed.
pub mod Polling
pub mod Jobs
use hydrui.Base.{
  ℕ, ◌/◌, ◌^◌, max, Bool, true, false, Option, none, some, List, [], ◌∷◌, Text, codes, eq_text, ltb,
  if◌then◌else◌, ◌==◌,
}

-- A time of so many ticks, or of a negative number of them.
pub data Time : Type 0 where
  ticks : ℕ → Time
  negative : ℕ → Time

pub record JobStatus : Type 0 where
  pub key : Text
  pub creation_time : Time

pub record PopupState : Type 0 where
  pub jobs : List JobStatus
  pub is_collapsed : Bool
  pub has_unread : Bool
  pub error : Option Text
  pub last_update_timestamp : ℕ
  pub polling_interval : Option ℕ
  -- The intervals that are set and not cleared.
  pub intervals : List ℕ

abbrev pub start : PopupState
start = record {
  jobs = [];
  is_collapsed = true;
  has_unread = false;
  error = none;
  last_update_timestamp = 0;
  polling_interval = none;
  intervals = [];
}

abbrev pub set_jobs : List JobStatus → PopupState → PopupState
set_jobs jobs st = record st { jobs = jobs }

abbrev pub set_collapsed : Bool → PopupState → PopupState
set_collapsed b st = record st { is_collapsed = b }

abbrev pub set_has_unread : Bool → PopupState → PopupState
set_has_unread b st = record st { has_unread = b }

abbrev pub set_error : Option Text → PopupState → PopupState
set_error e st = record st { error = e }

unfoldable pub without_job : Text → List JobStatus → List JobStatus
without_job key [] = []
without_job key (j ∷ js) = if eq_text j.key key then without_job key js else j ∷ without_job key js

-- `dismissJob`: a client that fails leaves the state as it is.
unfoldable pub dismiss_job : Bool → Text → PopupState → PopupState
unfolding without_job
dismiss_job true key st = record st { jobs = without_job key st.jobs }
dismiss_job false key st = st

unfoldable pub ticks_per_second : ℕ
ticks_per_second = 2 ^ 1074

-- `Math.max(time, 0)`
abbrev pub ticks_of : Time → ℕ
ticks_of (ticks n) = n
ticks_of (negative n) = 0

-- `Math.max(...times, 0)`
unfoldable pub largest : List JobStatus → ℕ
largest [] = 0
largest (j ∷ js) = max (ticks_of j.creation_time) (largest js)

-- `latestTimestamp`, in whole seconds: `Math.trunc` of a time that is not negative.
unfoldable pub latest : List JobStatus → ℕ
unfolding largest
latest js = largest js / ticks_per_second

-- `fetchJobs`; `none` is a client that fails.
unfoldable pub fetch_jobs : Option (List JobStatus) → PopupState → PopupState
unfolding latest
fetch_jobs none st = record st { error = some (codes "Failed to fetch updates from Hydrus") }
fetch_jobs (some jobs) st =
    if ltb st.last_update_timestamp (latest jobs)
    then record st {
      jobs = jobs;
      error = none;
      last_update_timestamp = latest jobs;
      has_unread = true;
    }
    else record st { jobs = jobs; error = none; last_update_timestamp = latest jobs }

-- `window.clearInterval`
unfoldable pub clear_interval : ℕ → List ℕ → List ℕ
clear_interval id [] = []
clear_interval id (x ∷ xs) = if x == id then clear_interval id xs else x ∷ clear_interval id xs

abbrev pub cleared : Option ℕ → List ℕ → List ℕ
cleared none xs = xs
cleared (some id) xs = clear_interval id xs

-- `startPolling`, where the browser gives the interval the number `id`.
unfoldable pub start_polling : ℕ → PopupState → PopupState
unfolding clear_interval
start_polling id st = record st {
  intervals = id ∷ cleared st.polling_interval st.intervals;
  polling_interval = some id;
}

abbrev pub stopped : Option ℕ → PopupState → PopupState
stopped none st = st
stopped (some id) st = record st {
  intervals = clear_interval id st.intervals;
  polling_interval = none;
}

unfoldable pub stop_polling : PopupState → PopupState
unfolding clear_interval
stop_polling st = stopped st.polling_interval st

-- The listener of `visibilitychange`. It calls `fetchJobs` as well, which changes nothing before the client
-- has answered.
unfoldable pub visibility_change : Bool → ℕ → PopupState → PopupState
unfolding start_polling stop_polling
visibility_change true id st = start_polling id st
visibility_change false id st = stop_polling st
