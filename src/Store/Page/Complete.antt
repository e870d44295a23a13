-- ===== src/Store/Page/Complete.antt =====
-- What every step of a load of store/pageStore.ts keeps, and what is there at its end.
use hydrui.Base.{
  ℕ, ◌+◌, ◌/◌, ◌*◌, ◌≡◌, ◌≢◌, refl, sym, ap, subst, ◌∙◌, Bool, true, false, not, ◌&&◌, some, List,
  [], ◌∷◌, ◌++◌, map, arith, length, has, total, Distinct, Bool-cases, inl, inr, ◌⊎◌, ◌==◌,
  get_elem?, is_empty, if◌then◌else◌, has-filter, but, length-map, drop, take, ◌-◌, get_elem?-drop,
  has-get_elem?, get_elem?-take_of_lt,
}
use hydrui.Store.Page.{PageState, FileMetadata}
use hydrui.Store.Page.Chunks.{chunk_at}
use hydrui.Store.Page.Indexed.{IsIndexed, split-IsIndexed}
use hydrui.Store.Page.Load.{
  Loader, Place, fetching, pausing, ready, done, respond, proceed, fetch_first, pause_wait,
  is_current, filled, finished, wake, roused, replied, with_reply, after_reply,
}
use hydrui.Store.Page.Slots.{filled-put_files, length-put_files}
use hydrui.Store.Page.Runs.{Loads, IsLoading, in_flight, open_chunks}

in_flight-roused : (p : Place) → in_flight (roused p) ≡ in_flight p
in_flight-roused (fetching c) = refl
in_flight-roused pausing = refl
in_flight-roused ready = refl
in_flight-roused done = refl

roused-eq-done : (p : Place) → roused p ≡ done → p ≡ done
roused-eq-done pausing e = cc
roused-eq-done (fetching c) e = e
roused-eq-done ready e = e
roused-eq-done done e = e

roused-ne-pausing : (p : Place) → roused p ≢ pausing
roused-ne-pausing pausing e = cc
roused-ne-pausing (fetching c) e = cc
roused-ne-pausing ready e = cc
roused-ne-pausing done e = cc

-- The other fields do not matter.
module _ (ids : List ℕ) (meta : ℕ → FileMetadata) where
  pub Loads-kept :
      (cs : List ℕ) (l m : Loader) (s t : PageState)
      → m.file_id_to_index ≡ l.file_id_to_index
      → m.file_id_to_chunk ≡ l.file_id_to_chunk
      → m.chunk_to_promise ≡ l.chunk_to_promise
      → m.loaded_file_count ≡ l.loaded_file_count
      → is_current m t ≡ is_current l s
      → t.loaded_files ≡ s.loaded_files
      → t.loaded_file_count ≡ s.loaded_file_count
      → Loads ids meta cs l s
      → Loads ids meta cs m t
  Loads-kept cs l m s t index chunk promises count current files shown h = record {
    index = index ∙ h.index;
    chunk = chunk ∙ h.chunk;
    current = current ∙ h.current;
    promises = λ c. ap (has c) promises ∙ h.promises c;
    distinct = h.distinct;
    covered = λ p a at. rw files (h.covered p a at);
    short = rw files h.short;
    counted = rw count h.counted;
    shown_count = shown ∙ h.shown_count ∙ sym count;
  }

  -- Another list of the same chunks.
  pub Loads-same :
      (cs ds : List ℕ) (l : Loader) (s : PageState)
      → Distinct ds
      → total (λ c. length (chunk_at ids c)) ds ≡ total (λ c. length (chunk_at ids c)) cs
      → ((c : ℕ) → has c ds ≡ has c cs)
      → Loads ids meta cs l s
      → Loads ids meta ds l s
  Loads-same cs ds l s distinct weight same h = record {
    index = h.index;
    chunk = h.chunk;
    current = h.current;
    promises = λ c. h.promises c ∙ sym (same c);
    distinct = distinct;
    covered = λ p a at. rw (same (p / 256 * 256)) (h.covered p a at);
    short = h.short;
    counted = rw weight h.counted;
    shown_count = h.shown_count;
  }

  fetch_first-IsLoading :
      (cs : List ℕ) (l : Loader) (st : PageState)
      → l.file_id_chunks ≡ cs
      → Loads ids meta cs l st
      → IsLoading ids meta (fetch_first cs l st).0 (fetch_first cs l st).1
  unfolding is_current has
  fetch_first-IsLoading [] l st e h = rw h.current (record {
    loads =
        subst (λ cs. Loads ids meta cs (record l { place = done }) (finished st)) (sym e)
          (Loads-kept [] l (record l { place = done }) st (finished st) refl refl refl refl refl
            refl refl h);
    ended = λ _. e;
    rousable = λ k. cc;
  })
  fetch_first-IsLoading (c ∷ cs) l st e h =
      let promised : has c l.chunk_to_promise ≡ true = h.promises c ∙ first c cs in
      rw promised (record {
        loads =
            Loads-kept (c ∷ cs) l (record l { place = fetching c; file_id_chunks = cs }) st st refl
              refl refl refl refl refl refl h;
        ended = λ k. cc;
        rousable = λ k. cc;
      })
    where
      first : (c : ℕ) (cs : List ℕ) → has c (c ∷ cs) ≡ true
      first c cs = ground arith

  pub proceed-IsLoading :
      (l : Loader) (st : PageState)
      → Loads ids meta l.file_id_chunks l st
      → IsLoading ids meta (proceed l st).0 (proceed l st).1
  unfolding proceed
  proceed-IsLoading l st h = fetch_first-IsLoading l.file_id_chunks l st refl h

  pause_wait-IsLoading :
      (l : Loader) (st : PageState)
      → Loads ids meta l.file_id_chunks l st
      → IsLoading ids meta (pause_wait l st).0 (pause_wait l st).1
  unfolding pause_wait is_current
  pause_wait-IsLoading l st h = elim (Bool-cases st.is_loading_paused) [
    | inl e ↦ rw e (record {
      loads = Loads-kept _ l _ st _ refl refl refl refl refl refl refl h;
      ended = λ k. cc;
      rousable = λ k. refl;
    })
    | inr e ↦ rw e (record {
      loads = Loads-kept _ l _ st _ refl refl refl refl refl refl refl h;
      ended = λ k. cc;
      rousable = λ k. cc;
    })
  ]

  pub wake-IsLoading :
      (l : Loader) (st : PageState)
      → IsLoading ids meta l st
      → IsLoading ids meta (wake l st).0 (wake l st).1
  unfolding wake is_current
  wake-IsLoading l st h =
      let woken : Loader × PageState =
        (record l { place = roused l.place }, record st { is_loading_awake = true }) in
      elim l.wakeup
        as (λ b.
          IsLoading ids meta (if b then woken else (l, st)).0 (if b then woken else (l, st)).1) [
            | true ↦ record {
              loads =
                  subst
                    (λ cs.
                      Loads ids meta (cs ++ l.file_id_chunks) (record l { place = roused l.place })
                        (record st { is_loading_awake = true }))
                    (sym (in_flight-roused l.place))
                    (Loads-kept (open_chunks l) l (record l { place = roused l.place }) st
                      (record st { is_loading_awake = true }) refl refl refl refl refl refl refl
                      h.loads);
              ended = λ e. h.ended (roused-eq-done l.place e);
              rousable = λ e. absurd (roused-ne-pausing l.place e);
            }
            | false ↦ h
          ]

  after_reply-IsLoading :
      (l : Loader) (st : PageState)
      → Loads ids meta l.file_id_chunks l st
      → IsLoading ids meta (after_reply l st).0 (after_reply l st).1
  after_reply-IsLoading l st h =
      elim (is_empty l.demand_set && not (is_empty l.file_id_chunks))
        as (λ b.
          IsLoading ids meta (if b then pause_wait l st else proceed l st).0
            (if b then pause_wait l st else proceed l st).1) [
              | true ↦ pause_wait-IsLoading l st h
              | false ↦ proceed-IsLoading l st h
            ]

module _ (ids : List ℕ) (meta : ℕ → FileMetadata) (honest : (a : ℕ) → (meta a).file_id ≡ a)
    (distinct : Distinct ids) where
  has-chunk_at :
      (c p a : ℕ) → p / 256 * 256 ≡ c → get_elem? ids p ≡ some a → has a (chunk_at ids c) ≡ true
  unfolding chunk_at
  has-chunk_at c p a e at =
      let at_p : get_elem? (drop c ids) (p - c) ≡ some a =
        get_elem?-drop c (p - c) ids ∙ ap (get_elem? ids) (back c p e) ∙ at in
      has-get_elem? (take 256 (drop c ids)) (p - c) a
        (get_elem?-take_of_lt 256 (p - c) (drop c ids) (omega arith) ∙ at_p)
    where
      back : (c p : ℕ) → p / 256 * 256 ≡ c → c + (p - c) ≡ p
      back c p e = omega arith

  IsIndexed-loader :
      (cs : List ℕ) (l : Loader) (st : PageState)
      → Loads ids meta cs l st
      → IsIndexed ids (length ids) l.file_id_to_index
  IsIndexed-loader cs l st h =
      subst (IsIndexed ids (length ids)) (sym h.index) (split-IsIndexed ids distinct)

  -- A reply fills the places of its chunk, and no others become empty.
  reply-covered :
      (c : ℕ) (cs : List ℕ) (l : Loader) (st : PageState)
      → Loads ids meta (c ∷ cs) l st
      → (p a : ℕ) → get_elem? ids p ≡ some a
      → (has (p / 256 * 256) cs ≡ true)
        ⊎ (filled (with_reply (map meta (chunk_at ids c)) l st).loaded_files p ≡ some (meta a))
  unfolding with_reply has
  reply-covered c cs l st h p a at =
      let indexed = IsIndexed-loader (c ∷ cs) l st h in
      let now =
        filled-put_files ids meta honest l.file_id_to_index indexed p a (chunk_at ids c)
          st.loaded_files at in
      elim (Bool-cases (p / 256 * 256 == c)) [
        | inl e ↦
            let found = has-chunk_at c p a (ground arith) at in
            inr (now ∙ ap (λ b. if b then some (meta a) else filled st.loaded_files p) found)
        | inr e ↦ elim (h.covered p a at) [
          | inl m ↦ inl (behind c cs (p / 256 * 256) e m)
          | inr f ↦
              inr (now ∙ ap (λ o. if has a (chunk_at ids c) then some (meta a) else o) f ∙ both _)
        ]
      ]
    where
      behind :
          (c : ℕ) (cs : List ℕ) (k : ℕ) → (k == c) ≡ false → has k (c ∷ cs) ≡ true → has k cs ≡ true
      behind c cs k e m = ground arith

      both : (b : Bool) → (if b then some (meta a) else some (meta a)) ≡ some (meta a)
      both true = refl
      both false = refl

  replied-Loads :
      (c : ℕ) (cs : List ℕ) (l : Loader) (st : PageState)
      → Loads ids meta (c ∷ cs) l st
      → Loads ids meta cs
          (replied c (map meta (chunk_at ids c)) l)
          (with_reply (map meta (chunk_at ids c)) l st)
  unfolding replied with_reply is_current total has
  replied-Loads c cs l st h = record {
    index = h.index;
    chunk = h.chunk;
    current = h.current;
    promises =
        λ k. has-filter k (but c) l.chunk_to_promise ∙ ap (but c k &&◌) (h.promises k) ∙ other k;
    distinct = h.distinct.1;
    covered = reply-covered c cs l st h;
    short =
        length-put_files ids meta honest l.file_id_to_index (IsIndexed-loader (c ∷ cs) l st h)
          (chunk_at ids c) st.loaded_files h.short;
    counted = omega (arith, h.counted, length-map meta (chunk_at ids c));
    shown_count = refl;
  }
    where
      other : (k : ℕ) → (but c k && has k (c ∷ cs)) ≡ has k cs
      other k = elim (Bool-cases (k == c)) [
        | inl e ↦
            let same : k ≡ c = ground arith in
            let fresh : has k cs ≡ false = ap (λ j. has j cs) same ∙ h.distinct.0 in ground arith
        | inr e ↦ ground arith
      ]

  pub respond-IsLoading :
      (c : ℕ) (l : Loader) (st : PageState)
      → l.place ≡ fetching c
      → IsLoading ids meta l st
      → IsLoading ids meta
          (respond c (map meta (chunk_at ids c)) l st).0
          (respond c (map meta (chunk_at ids c)) l st).1
  unfolding respond replied
  respond-IsLoading c l st e h =
      let files = map meta (chunk_at ids c) in
      let loads = subst (λ p. Loads ids meta (in_flight p ++ l.file_id_chunks) l st) e h.loads in
      let next =
        after_reply-IsLoading ids meta (replied c files l) (with_reply files l st)
          (same_queue c files (replied-Loads c l.file_id_chunks l st loads)) in
      rw h.loads.current next
    where
      same_queue :
          (c : ℕ) (files : List FileMetadata)
          → Loads ids meta l.file_id_chunks (replied c files l) (with_reply files l st)
          → Loads ids meta
              (replied c files l).file_id_chunks
              (replied c files l)
              (with_reply files l st)
      same_queue c files h = h
