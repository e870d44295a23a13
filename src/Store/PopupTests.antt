-- ===== src/Store/PopupTests.antt =====
-- Runs of the popup and the toast store, and their theorems on them.
use hydrui.Base.{
  ℕ, ◌*◌, ◌^◌, false, ◌≡◌, ◌↔◌, ◌⊎◌, ◌++◌, refl, true, none, some, [], ◌∷◌, List, Text, codes,
  eq_text,
}
use hydrui.Store.Popup.{
  PopupState, JobStatus, ticks, largest, ticks_per_second, start, fetch_jobs, latest, start_polling,
  clear_interval,
}
use hydrui.Store.Popup.Polling.{RunsOne, Reachable-RunsOne, begin, and_then, poll, fetch}
use hydrui.Store.Popup.Jobs.{HasNewer, fetch_jobs-has_unread}
use hydrui.Store.Toast.{Toast, ToastOptions, new_toast, remove_toast, info, error}
use hydrui.Store.Toast.Updates.{IsFresh, lived, add_toast-remove_toast}

-- A job by its time in half seconds.
abbrev job : Text → ℕ → JobStatus
job key halves = record { key = key; creation_time = ticks (halves * 2 ^ 1073) }

abbrev jobs : List JobStatus
jobs = job (codes "a") 5 ∷ job (codes "b") 9 ∷ []

abbrev polled : PopupState
polled = fetch_jobs (some jobs) (start_polling 8 (start_polling 7 start))

polled_interval : polled.intervals ≡ 8 ∷ []
unfolding fetch_jobs start_polling clear_interval latest ticks_per_second
polled_interval = refl

Reachable-RunsOne_example : RunsOne polled
Reachable-RunsOne_example =
    Reachable-RunsOne (and_then (and_then (and_then begin (poll 7)) (poll 8)) (fetch (some jobs)))

-- A job half a second behind the second that was seen last is not marked.
half_second_missed :
    (fetch_jobs
      (some (job (codes "a") 11 ∷ []))
      (record start { last_update_timestamp = 5 })).has_unread
    ≡ false
unfolding fetch_jobs latest largest ticks_per_second
half_second_missed = refl

fetch_jobs-has_unread_example :
    (((fetch_jobs (some jobs) start).has_unread ≡ true)
      ↔ ((start.has_unread ≡ true) ⊎ HasNewer 0 jobs))
    × (fetch_jobs (some jobs) (fetch_jobs (some jobs) start) ≡ fetch_jobs (some jobs) start)
fetch_jobs-has_unread_example = fetch_jobs-has_unread jobs start

abbrev no_options : ToastOptions
no_options = record { duration = none; actions = [] }

abbrev old_toast : Toast
old_toast = new_toast (codes "x1") 3 (codes "old") error no_options

old-IsFresh : IsFresh (codes "x2") (old_toast ∷ [])
unfolding eq_text
old-IsFresh = (refl, tt)

abbrev new_lived : List Toast
new_lived = lived (codes "x2") 4 700 50 (codes "new") info no_options (old_toast ∷ [])

add_toast-remove_toast_example :
    (new_lived
      ≡ (old_toast ∷ [])
        ++ (record (new_toast (codes "x2") 4 (codes "new") info no_options) {
          remaining_time = some 700;
          progress = some 50;
        }
            ∷ []))
    × (remove_toast (codes "x2") new_lived ≡ old_toast ∷ [])
add_toast-remove_toast_example =
    add_toast-remove_toast (codes "x2") 4 700 50 (codes "new") info no_options (old_toast ∷ [])
      old-IsFresh
