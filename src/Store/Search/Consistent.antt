-- ===== src/Store/Search/Consistent.antt =====
-- Consistent states of the store of store/searchStore.ts.
use hydrui.Base.{
  ℕ, suc, ◌≡◌, ◌≤◌, ◌<◌, refl, ap, ◌∙◌, false, Option, none, some, List, [], ◌∷◌, ◌++◌, All, arith,
  Bool-cases, inl, inr, ◌==◌, is_empty,
}
use hydrui.Store.Search.{
  SearchState, Request, Promise, loading, perform_search, answer, cancel, without_request,
}

-- A call with this serial stands at its `await`.
pub data IsRunning (k : ℕ) : List Request → Type 0 where
  first : {r : Request} {rs : List Request} → r.serial ≡ k → IsRunning k (r ∷ rs)
  later : {r : Request} {rs : List Request} → IsRunning k rs → IsRunning k (r ∷ rs)

-- Serials below `n`, in the order of the calls.
unfoldable pub IsOrdered : ℕ → List Request → Type 0
IsOrdered n [] = Unit
IsOrdered n (r ∷ rs) = (n < r.serial) × IsOrdered r.serial rs

abbrev Bounded : ℕ → Request → Type 0
Bounded n r = r.serial ≤ n

pub record IsConsistent (st : SearchState) : Type 0 where
  -- Every call has its own serial, and none is above the store's.
  pub ordered : IsOrdered 0 st.requests
  pub bounded : All (Bounded st.serial) st.requests
  -- While the store is loading, the newest call is running.
  pub running : st.search_status ≡ loading → IsRunning st.serial st.requests
  -- A handle belongs to the newest call, and the store is loading.
  pub handle : (k : ℕ) → st.cancel_search ≡ some k → (k ≡ st.serial) × (st.search_status ≡ loading)

pub answer-IsOrdered :
    (n k : ℕ) (p : Promise) (rs : List Request) → IsOrdered n rs → IsOrdered n (answer k p rs)
unfolding answer IsOrdered
answer-IsOrdered n k p [] h = tt
answer-IsOrdered n k p (r ∷ rs) h = elim (Bool-cases (r.serial == k)) [
  | inl e ↦ rw e (h.0, answer-IsOrdered r.serial k p rs h.1)
  | inr e ↦ rw e (h.0, answer-IsOrdered r.serial k p rs h.1)
]

pub answer-Bounded :
    (n k : ℕ) (p : Promise) (rs : List Request)
    → All (Bounded n) rs
    → All (Bounded n) (answer k p rs)
unfolding answer
answer-Bounded n k p [] h = tt
answer-Bounded n k p (r ∷ rs) h = elim (Bool-cases (r.serial == k)) [
  | inl e ↦ rw e (h.0, answer-Bounded n k p rs h.1)
  | inr e ↦ rw e (h.0, answer-Bounded n k p rs h.1)
]

pub answer-IsRunning :
    (n k : ℕ) (p : Promise) {rs : List Request} → IsRunning n rs → IsRunning n (answer k p rs)
unfolding answer
answer-IsRunning n k p (first {r} same) = elim (Bool-cases (r.serial == k)) [
  | inl e ↦ rw e (first same)
  | inr e ↦ rw e (first same)
]
answer-IsRunning n k p (later h) = later (answer-IsRunning n k p h)

IsOrdered-le : (n m : ℕ) (rs : List Request) → n ≤ m → IsOrdered m rs → IsOrdered n rs
unfolding IsOrdered
IsOrdered-le n m [] h o = tt
IsOrdered-le n m (r ∷ rs) h o = (omega (arith, o.0), o.1)

pub without_request-IsOrdered :
    (n k : ℕ) (rs : List Request) → IsOrdered n rs → IsOrdered n (without_request k rs)
unfolding without_request IsOrdered
without_request-IsOrdered n k [] h = tt
without_request-IsOrdered n k (r ∷ rs) h = elim (Bool-cases (r.serial == k)) [
  | inl e ↦ rw e (without_request-IsOrdered n k rs (IsOrdered-le n r.serial rs (omega arith) h.1))
  | inr e ↦ rw e (h.0, without_request-IsOrdered r.serial k rs h.1)
]

pub without_request-Bounded :
    (n k : ℕ) (rs : List Request) → All (Bounded n) rs → All (Bounded n) (without_request k rs)
unfolding without_request
without_request-Bounded n k [] h = tt
without_request-Bounded n k (r ∷ rs) h = elim (Bool-cases (r.serial == k)) [
  | inl e ↦ rw e (without_request-Bounded n k rs h.1)
  | inr e ↦ rw e (h.0, without_request-Bounded n k rs h.1)
]

pub without_request-IsRunning :
    (n k : ℕ) {rs : List Request}
    → (n == k) ≡ false
    → IsRunning n rs
    → IsRunning n (without_request k rs)
unfolding without_request
without_request-IsRunning n k other (first {r} {rs} same) =
    let kept : (r.serial == k) ≡ false = ap (λ m. m == k) same ∙ other in rw kept (first same)
without_request-IsRunning n k other (later {r} {rs} h) = elim (Bool-cases (r.serial == k)) [
  | inl e ↦ rw e (without_request-IsRunning n k other h)
  | inr e ↦ rw e (later (without_request-IsRunning n k other h))
]

Bounded-suc : (n : ℕ) (rs : List Request) → All (Bounded n) rs → All (Bounded (suc n)) rs
Bounded-suc n [] h = tt
Bounded-suc n (r ∷ rs) h = (omega (arith, h.0), Bounded-suc n rs h.1)

append-IsOrdered :
    (n m : ℕ) (rs : List Request) (q : Request)
    → n ≤ m
    → q.serial ≡ suc m
    → All (Bounded m) rs
    → IsOrdered n rs
    → IsOrdered n (rs ++ (q ∷ []))
unfolding IsOrdered
append-IsOrdered n m [] q le same b o = (omega arith, tt)
append-IsOrdered n m (r ∷ rs) q le same b o =
    (o.0, append-IsOrdered r.serial m rs q b.0 same b.1 o.1)

append-Bounded :
    (n : ℕ) (rs : List Request) (q : Request)
    → q.serial ≡ suc n
    → All (Bounded n) rs
    → All (Bounded (suc n)) (rs ++ (q ∷ []))
append-Bounded n [] q same h = (omega arith, tt)
append-Bounded n (r ∷ rs) q same h = (omega (arith, h.0), append-Bounded n rs q same h.1)

append-IsRunning : (rs : List Request) (q : Request) → IsRunning q.serial (rs ++ (q ∷ []))
append-IsRunning [] q = first refl
append-IsRunning (r ∷ rs) q = later (append-IsRunning rs q)

cancel-IsOrdered :
    (n : ℕ) (o : Option ℕ) (rs : List Request) → IsOrdered n rs → IsOrdered n (cancel o rs)
unfolding cancel
cancel-IsOrdered n none rs h = h
cancel-IsOrdered n (some k) rs h = answer-IsOrdered n k _ rs h

cancel-Bounded :
    (n : ℕ) (o : Option ℕ) (rs : List Request) → All (Bounded n) rs → All (Bounded n) (cancel o rs)
unfolding cancel
cancel-Bounded n none rs h = h
cancel-Bounded n (some k) rs h = answer-Bounded n k _ rs h

pub perform_search-IsConsistent :
    (st : SearchState) → IsConsistent st → IsConsistent (perform_search st)
unfolding perform_search
perform_search-IsConsistent st h =
    let ordered = cancel-IsOrdered 0 st.cancel_search st.requests h.ordered in
    let bounded = cancel-Bounded st.serial st.cancel_search st.requests h.bounded in
    elim (Bool-cases (is_empty st.search_tags)) [
      | inl e ↦ rw e (record {
        ordered = ordered;
        bounded = Bounded-suc st.serial _ bounded;
        running = λ k. cc;
        handle = λ k same. cc;
      })
      | inr e ↦ rw e (record {
        ordered = append-IsOrdered 0 st.serial _ _ (omega arith) refl bounded ordered;
        bounded = append-Bounded st.serial _ _ refl bounded;
        running = λ _. append-IsRunning _ _;
        handle = λ k same. (cc, refl);
      })
    ]
