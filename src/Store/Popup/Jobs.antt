-- ===== src/Store/Popup/Jobs.antt =====
-- What `fetchJobs` of store/popupStore.ts makes of a reply.
use hydrui.Base.{
  ℕ, ◌+◌, ◌*◌, ◌≤◌, leb, subst, sym, ◌≡◌, ◌<◌, ◌↔◌, ◌⊎◌, refl, true, false, some, List, [], ◌∷◌,
  Bool-cases, inl, inr, ltb, arith,
}
use hydrui.Store.Popup.{
  PopupState, JobStatus, ticks_of, ticks_per_second, largest, fetch_jobs, latest,
}
use native.Mathlib.Nat.{le-div_iff_mul-le}

-- A job of the list was made a second or more behind the second `t`: its time in whole seconds is above `t`.
pub data HasNewer (t : ℕ) : List JobStatus → Type 0 where
  this :
      {j : JobStatus} {js : List JobStatus}
      → (t + 1) * ticks_per_second ≤ ticks_of j.creation_time
      → HasNewer t (j ∷ js)
  other : {j : JobStatus} {js : List JobStatus} → HasNewer t js → HasNewer t (j ∷ js)

HasNewer→largest :
    (t : ℕ) {js : List JobStatus} → HasNewer t js → (t + 1) * ticks_per_second ≤ largest js
unfolding largest
HasNewer→largest t (this h) = omega arith
HasNewer→largest t (other h) = omega (arith, HasNewer→largest t h)

-- A bound that is not zero is reached by one of the times.
largest→HasNewer :
    (t bound : ℕ) (js : List JobStatus)
    → (t + 1) * ticks_per_second ≡ bound
    → 0 < bound
    → bound ≤ largest js
    → HasNewer t js
unfolding largest
largest→HasNewer t bound [] e some_bound h = absurd (omega arith)
largest→HasNewer t bound (j ∷ js) e some_bound h =
    elim (Bool-cases (leb bound (ticks_of j.creation_time))) [
      | inl reached ↦ this (subst (λ n. n ≤ ticks_of j.creation_time) (sym e) (ground arith))
      | inr below ↦ other (largest→HasNewer t bound js e some_bound (ground arith))
    ]

ticks_per_second_pos : 0 < ticks_per_second
unfolding ticks_per_second
ticks_per_second_pos = omega arith

HasNewer→latest : (t : ℕ) {js : List JobStatus} → HasNewer t js → t < latest js
unfolding latest
HasNewer→latest t {js} h =
    below (((le-div_iff_mul-le ticks_per_second_pos).1) (HasNewer→largest t h))
  where
    below : {n : ℕ} → t + 1 ≤ n → t < n
    below h = omega arith

latest→HasNewer : (t : ℕ) (js : List JobStatus) → t < latest js → HasNewer t js
unfolding latest
latest→HasNewer t js h =
    largest→HasNewer t ((t + 1) * ticks_per_second) js refl (above_zero ticks_per_second_pos)
      (((le-div_iff_mul-le ticks_per_second_pos).0) (above_by h))
  where
    above_by : {n : ℕ} → t < n → t + 1 ≤ n
    above_by h = omega arith

    above_zero : {n : ℕ} → 0 < n → 0 < (t + 1) * n
    above_zero h = omega arith

not_below : (n : ℕ) → ltb n n ≡ false
not_below n = ground arith

above : (t n : ℕ) → ltb t n ≡ false → ¬ (t < n)
above t n e h = ground arith

-- A reply marks the jobs as unread where the time of one of them, in whole seconds, is above the second that was
-- seen last; otherwise the mark stays as it was. A second reply with the same jobs changes nothing.
pub fetch_jobs-has_unread :
    (js : List JobStatus) (st : PopupState)
    → (((fetch_jobs (some js) st).has_unread ≡ true)
        ↔ ((st.has_unread ≡ true) ⊎ HasNewer st.last_update_timestamp js))
      × (fetch_jobs (some js) (fetch_jobs (some js) st) ≡ fetch_jobs (some js) st)
unfolding fetch_jobs
fetch_jobs-has_unread js st = elim (Bool-cases (ltb st.last_update_timestamp (latest js))) [
  | inl e ↦
      rw (e, not_below (latest js))
        (
          ((λ _. inr (latest→HasNewer st.last_update_timestamp js (ground arith))), (λ _. refl)),
          refl,
        )
  | inr e ↦
      rw (e, not_below (latest js))
        (
          (
            inl,
            λ marked. elim marked [
              | inl was ↦ was
              | inr newer ↦ absurd (
                  above st.last_update_timestamp (latest js) e
                    (HasNewer→latest st.last_update_timestamp newer))
            ],
          ),
          refl,
        )
]
