-- ===== src/Store/Page/Chunked.antt =====
-- The map from file ids to chunks of `updateWithFileIds` of store/pageStore.ts.
use hydrui.Base.{
  ℕ, zero, suc, ◌+◌, ◌/◌, ◌*◌, ◌%◌, ◌≤◌, ◌≡◌, refl, Option, none, some, List, [], ◌∷◌, arith,
  length, ltb, Bool-cases, inl, inr, ◌==◌, length-take, drop, if◌then◌else◌,
}
use hydrui.Store.Page.{entry}
use hydrui.Store.Page.Chunks.{FileIndex, chunk_size, chunk_at, enter, split_from, split, no_files}

abbrev pub chunk_index : Option ℕ → Option ℕ
chunk_index none = none
chunk_index (some p) = some (p / 256 * 256)

-- A file's chunk is the one that its index lies in.
abbrev IsChunked : FileIndex → Type 0
IsChunked m = (a : ℕ) → entry a m.chunk_of ≡ chunk_index (entry a m.index_of)

enter-IsChunked :
    (i j : ℕ) (fs : List ℕ) (m : FileIndex)
    → i % 256 ≡ 0
    → j + length fs ≤ 256
    → IsChunked m
    → IsChunked (enter i j fs m)
unfolding enter entry
enter-IsChunked i j [] m aligned fits h = h
enter-IsChunked i j (f ∷ fs) m aligned fits h =
    enter-IsChunked i (suc j) fs _ aligned (omega arith) added
  where
    within : (i + j) / 256 * 256 ≡ i
    within = omega arith

    added :
        (a : ℕ)
        → (if f == a then some i else entry a m.chunk_of)
          ≡ chunk_index (if f == a then some (i + j) else entry a m.index_of)
    added a = elim (Bool-cases (f == a)) [ inl e ↦ rw (e, within) refl | inr e ↦ rw e (h a) ]

split_from-IsChunked :
    (rounds i : ℕ) (ids : List ℕ) (m : FileIndex)
    → i % 256 ≡ 0
    → IsChunked m
    → IsChunked (split_from rounds i ids m)
unfolding split_from chunk_at
split_from-IsChunked zero i ids m aligned h = h
split_from-IsChunked (suc rounds) i ids m aligned h = elim (Bool-cases (ltb i (length ids))) [
  | inl e ↦ rw e (
      split_from-IsChunked rounds (i + chunk_size) ids _ (omega arith) (
        enter-IsChunked i 0 (chunk_at ids i) m aligned
          (omega (arith, length-take chunk_size (drop i ids))) h))
  | inr e ↦ rw e h
]

pub split-IsChunked :
    (ids : List ℕ) (a : ℕ)
    → entry a (split ids).chunk_of ≡ chunk_index (entry a (split ids).index_of)
unfolding split entry
split-IsChunked ids = split_from-IsChunked (length ids) 0 ids no_files (omega arith) (λ a. refl)
