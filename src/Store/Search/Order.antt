-- ===== src/Store/Search/Order.antt =====
-- Replies to the searches of store/searchStore.ts, in any order.
use hydrui.Base.{
  ℕ, suc, ◌≡◌, refl, ap, sym, ◌∙◌, arith, true, false, none, List, [], ◌∷◌, ◌++◌, Bool-cases, inl,
  inr, ◌==◌, is_empty,
}
use hydrui.Store.Search.{
  SearchState, Request, Promise, waiting, perform_search, settle, show, without_request, cancel,
  query_of,
}

without_request-without_request :
    (j k : ℕ) (rs : List Request)
    → without_request j (without_request k rs) ≡ without_request k (without_request j rs)
unfolding without_request
without_request-without_request j k [] = refl
without_request-without_request j k (r ∷ rs) = elim (Bool-cases (r.serial == j)) [
  | inl e ↦ elim (Bool-cases (r.serial == k)) [
    | inl e₁ ↦ rw (e, e₁) (without_request-without_request j k rs)
    | inr e₁ ↦ rw (e, e₁, e) (without_request-without_request j k rs)
  ]
  | inr e ↦ elim (Bool-cases (r.serial == k)) [
    | inl e₁ ↦ rw (e, e₁) (without_request-without_request j k rs)
    | inr e₁ ↦ rw (e, e₁, e) (ap (r ∷◌) (without_request-without_request j k rs))
  ]
]

abbrev with_requests : List Request → SearchState → SearchState
with_requests rs st = record st { cancel_search = none; requests = rs }

settle-newest :
    (r : Request) (st : SearchState)
    → (st.serial == r.serial) ≡ true
    → settle r st
      ≡ with_requests (without_request r.serial (show r.promise st).requests) (show r.promise st)
unfolding settle
settle-newest r st e = rw e refl

settle-older :
    (r : Request) (st : SearchState)
    → (st.serial == r.serial) ≡ false
    → settle r st ≡ with_requests (without_request r.serial st.requests) st
unfolding settle
settle-older r st e = rw e refl

show-serial : (p : Promise) (st : SearchState) → (show p st).serial ≡ st.serial
show-serial waiting st = refl
show-serial (Promise.resolved ids) st = refl
show-serial (Promise.rejected e) st = refl

-- What is shown does not depend on the calls that run.
show-without_request :
    (p : Promise) (j k : ℕ) (st : SearchState)
    → (let older = with_requests (without_request j st.requests) st in
        let newest = with_requests (without_request k (show p st).requests) (show p st) in
        with_requests (without_request k (show p older).requests) (show p older)
        ≡ with_requests (without_request j newest.requests) newest)
show-without_request waiting j k st =
    ap (λ rs. with_requests rs st) (without_request-without_request k j st.requests)
show-without_request (Promise.resolved ids) j k st =
    ap (λ rs. with_requests rs (show (Promise.resolved ids) st))
      (without_request-without_request k j st.requests)
show-without_request (Promise.rejected e) j k st =
    ap (λ rs. with_requests rs (show (Promise.rejected e) st))
      (without_request-without_request k j st.requests)

-- The newest call and an older one.
newest-older :
    (r q : Request) (st : SearchState)
    → (st.serial == r.serial) ≡ true
    → (st.serial == q.serial) ≡ false
    → settle r (settle q st) ≡ settle q (settle r st)
newest-older r q st e e₁ =
    let serial = show-serial r.promise st in
    let older = with_requests (without_request q.serial st.requests) st in
    let newest =
      with_requests (without_request r.serial (show r.promise st).requests) (show r.promise st) in
    ap (settle r) (settle-older q st e₁)
    ∙ (settle-newest r older e
        ∙ (show-without_request r.promise q.serial r.serial st
            ∙ (sym (settle-older q newest (ap (λ n. n == q.serial) serial ∙ e₁))
                ∙ ap (settle q) (sym (settle-newest r st e)))))

-- Two calls with different serials leave the same state, whichever of them goes on first: what the store
-- shows does not depend on the order of the replies.
pub settle-settle :
    (r q : Request) (st : SearchState)
    → (r.serial == q.serial) ≡ false
    → settle r (settle q st) ≡ settle q (settle r st)
settle-settle r q st other = elim (Bool-cases (st.serial == r.serial)) [
  | inl e ↦ elim (Bool-cases (st.serial == q.serial)) [
    | inl e₁ ↦ absurd (ground arith)
    | inr e₁ ↦ newest-older r q st e e₁
  ]
  | inr e ↦ elim (Bool-cases (st.serial == q.serial)) [
    | inl e₁ ↦ sym (newest-older q r st e₁ e)
    | inr e₁ ↦
        let dropped_q = with_requests (without_request q.serial st.requests) st in
        let dropped_r = with_requests (without_request r.serial st.requests) st in
        ap (settle r) (settle-older q st e₁)
        ∙ (settle-older r dropped_q e
            ∙ (ap (λ rs. with_requests rs st)
                  (without_request-without_request r.serial q.serial st.requests)
                ∙ (sym (settle-older q dropped_r e₁) ∙ ap (settle q) (sym (settle-older r st e)))))
  ]
]

-- Behind a call that is not the newest and goes on, the handle of the newest one is lost: the next search, if there
-- are tags, leaves every other call as it is, also the newest one.
pub settle-perform_search :
    (r : Request) (st : SearchState)
    → (st.serial == r.serial) ≡ false
    → is_empty st.search_tags ≡ false
    → (perform_search (settle r st)).requests
      ≡ without_request r.serial st.requests
        ++ (record { serial = suc st.serial; query = query_of st; promise = waiting } ∷ [])
unfolding perform_search cancel
settle-perform_search r st older tags = rw (settle-older r st older, tags) refl
