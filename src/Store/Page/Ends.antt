-- ===== src/Store/Page/Ends.antt =====
-- How a load of store/pageStore.ts comes to its end.
use hydrui.Base.{
  ℕ, zero, suc, ◌+◌, ◌*◌, ◌≤◌, ◌≡◌, refl, sym, ap, subst, true, false, not, ◌&&◌, some, List, [],
  ◌∷◌, ◌++◌, map, arith, length, has, Distinct, Bool-cases, inl, inr, is_empty, if◌then◌else◌, Text,
}
use hydrui.Store.Page.{PageState, FileMetadata}
use hydrui.Store.Page.Chunks.{chunk_at}
use hydrui.Store.Page.Load.{
  Loader, Place, fetching, pausing, ready, done, respond, proceed, fetch_first, fail, pause_wait,
  after_reply, replied, with_reply, is_current, wake, set_is_loading_paused, roused,
}
use hydrui.Store.Page.Runs.{Run, in_flight, open_chunks, answered, went_on, paused}
use hydrui.Store.Page.Finished.{Run-IsLoading, Run-complete}

-- The turns that are left at most.
abbrev turns : Place → List ℕ → ℕ
turns (fetching _) q = 3 + 3 * length q
turns pausing q = 2 + 3 * length q
turns ready q = 1 + 3 * length q
turns done q = 0

abbrev turns_left : Loader → ℕ
turns_left l = turns l.place l.file_id_chunks

turns-eq-zero : (p : Place) (q : List ℕ) → turns p q ≤ 0 → p ≡ done
turns-eq-zero (fetching c) q h = absurd (omega arith)
turns-eq-zero pausing q h = absurd (omega arith)
turns-eq-zero ready q h = absurd (omega arith)
turns-eq-zero done q h = refl

proceed-turns :
    (l : Loader) (st : PageState) → turns_left (proceed l st).0 ≤ 3 * length l.file_id_chunks
unfolding proceed fail
proceed-turns l st = of_queue l.file_id_chunks
  where
    of_queue : (q : List ℕ) → turns_left (fetch_first q l st).0 ≤ 3 * length q
    of_queue [] = omega arith
    of_queue (c ∷ q) = elim (Bool-cases (has c l.chunk_to_promise)) [
      | inl e ↦ rw e (omega arith)
      | inr e ↦ rw e (omega arith)
    ]

pause_wait-turns :
    (l : Loader) (st : PageState) → turns_left (pause_wait l st).0 ≤ 2 + 3 * length l.file_id_chunks
unfolding pause_wait
pause_wait-turns l st = elim (Bool-cases st.is_loading_paused) [
  | inl e ↦ rw e (omega arith)
  | inr e ↦ rw e (omega arith)
]

after_reply-turns :
    (l : Loader) (st : PageState)
    → turns_left (after_reply l st).0 ≤ 2 + 3 * length l.file_id_chunks
after_reply-turns l st =
    elim (is_empty l.demand_set && not (is_empty l.file_id_chunks))
      as (λ b.
        turns_left (if b then pause_wait l st else proceed l st).0
        ≤ 2 + 3 * length l.file_id_chunks) [
          | true ↦ pause_wait-turns l st
          | false ↦ omega (arith, proceed-turns l st)
        ]

respond-turns :
    (c : ℕ) (files : List FileMetadata) (l : Loader) (st : PageState)
    → turns_left (respond c files l st).0 ≤ 2 + 3 * length l.file_id_chunks
unfolding respond
respond-turns c files l st = elim (Bool-cases (is_current l st)) [
  | inl e ↦ rw e (same_queue (after_reply-turns (replied c files l) (with_reply files l st)))
  | inr e ↦ rw e (omega arith)
]
  where
    same_queue :
        {n : ℕ}
        → n ≤ 2 + 3 * length (replied c files l).file_id_chunks
        → n ≤ 2 + 3 * length l.file_id_chunks
    same_queue h = h

module _ (ids : List ℕ) (key : Text) (request_id : ℕ) (meta : ℕ → FileMetadata) where
  -- What lets a load go on: the client's reply, or the end of a pause.
  abbrev pub turn : Place → Loader → PageState → Loader × PageState
  turn (fetching c) l st = respond c (map meta (chunk_at ids c)) l st
  turn pausing l st = set_is_loading_paused false l st
  turn ready l st = proceed l st
  turn done l st = (l, st)

  unfoldable pub drive : ℕ → Loader → PageState → Loader × PageState
  drive zero l st = (l, st)
  drive (suc n) l st = drive n (turn l.place l st).0 (turn l.place l st).1

  turn-Run :
      (p : Place) (l : Loader) (st : PageState)
      → l.place ≡ p
      → Run ids key request_id meta l st
      → Run ids key request_id meta (turn p l st).0 (turn p l st).1
  turn-Run (fetching c) l st e r = answered c r e
  turn-Run pausing l st e r = paused false r
  turn-Run ready l st e r = went_on r e
  turn-Run done l st e r = r

  turn-turns :
      (p : Place) (l : Loader) (st : PageState)
      → l.place ≡ p
      → (l.place ≡ pausing → l.wakeup ≡ true)
      → (n : ℕ) → turns p l.file_id_chunks ≤ suc n
      → turns_left (turn p l st).0 ≤ n
  unfolding set_is_loading_paused wake
  turn-turns (fetching c) l st e rousable n h =
      omega (arith, respond-turns c (map meta (chunk_at ids c)) l st)
  turn-turns pausing l st e rousable n h =
      let s = record st { is_loading_paused = false } in
      let woken : turns (roused l.place) l.file_id_chunks ≡ 1 + 3 * length l.file_id_chunks =
        ap (λ p. turns (roused p) l.file_id_chunks) e in
      subst
        (λ b.
          let next : Loader × PageState =
            if b
            then (record l { place = roused l.place }, record s { is_loading_awake = true })
            else (l, s) in
          turns_left next.0 ≤ n)
        (sym (rousable e)) (omega arith)
  turn-turns ready l st e rousable n h = omega (arith, proceed-turns l st)
  turn-turns done l st e rousable n h =
      let none_left : turns_left l ≡ 0 = ap (λ p. turns p l.file_id_chunks) e in omega arith

  module _ (honest : (a : ℕ) → (meta a).file_id ≡ a) (distinct : Distinct ids) where
    drive-Run :
        (n : ℕ) (l : Loader) (st : PageState)
        → Run ids key request_id meta l st
        → turns_left l ≤ n
        → Run ids key request_id meta (drive n l st).0 (drive n l st).1
          × ((drive n l st).0.place ≡ done)
    unfolding drive
    drive-Run zero l st r h = (r, turns-eq-zero l.place l.file_id_chunks h)
    drive-Run (suc n) l st r h = drive-Run n _ _ (turn-Run l.place l st refl r) (
        turn-turns l.place l st refl
          (Run-IsLoading ids key request_id meta honest distinct r).rousable n h)

    -- Wherever a load stands: once the client has answered, and no pause lasts, it ends within three turns
    -- for each chunk that is open and two more, and then the store holds the metadata of every file of the
    -- page, in the page's order.
    pub drive_complete :
        (n : ℕ) (l : Loader) (st : PageState)
        → Run ids key request_id meta l st
        → 3 * length (open_chunks l) + 2 ≤ n
        → ((drive n l st).0.place ≡ done)
          × ((drive n l st).1.loaded_files ≡ map (λ a. some (meta a)) ids)
          × ((drive n l st).1.loaded_file_count ≡ length ids)
    drive_complete n l st r h =
        let (run, ended) = drive-Run n l st r (le_turns l.place l.file_id_chunks h) in
        let (whole, count) = Run-complete ids key request_id meta honest distinct run ended in
        (ended, whole, count)
      where
        le_turns : (p : Place) (q : List ℕ) → 3 * length (in_flight p ++ q) + 2 ≤ n → turns p q ≤ n
        le_turns (fetching c) q h = omega arith
        le_turns pausing q h = omega arith
        le_turns ready q h = omega arith
        le_turns done q h = omega arith
