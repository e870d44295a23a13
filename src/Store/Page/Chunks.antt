-- ===== src/Store/Page/Chunks.antt =====
-- The chunks of `updateWithFileIds` in store/pageStore.ts, with the maps that it builds of them. A chunk is named
-- by the index of its first file id: its array is made once, and compared by reference.
use hydrui.Base.{
  ℕ, zero, suc, ◌+◌, ◌*◌, ◌%◌, ◌<◌, ◌≤◌, ◌≡◌, refl, true, false, List, [], ◌∷◌, ◌++◌, arith, length,
  take, drop, ltb, has, Distinct, if◌then◌else◌, Bool-cases, inl, inr, append_assoc, append-nil, ap,
  sym, ◌∙◌,
}

abbrev pub chunk_size : ℕ
chunk_size = 256

pub record FileIndex : Type 0 where
  -- `fileIdToChunk`, `fileIdToIndex` and `fileIdChunks`
  pub chunk_of : List (ℕ × ℕ)
  pub index_of : List (ℕ × ℕ)
  pub chunks : List ℕ

abbrev pub no_files : FileIndex
no_files = record { chunk_of = []; index_of = []; chunks = [] }

-- `fileIds.slice(i, i + CHUNK_SIZE)`
unfoldable pub chunk_at : List ℕ → ℕ → List ℕ
chunk_at file_ids i = take chunk_size (drop i file_ids)

-- The inner loop, over the entries of the chunk at `i`.
unfoldable pub enter : ℕ → ℕ → List ℕ → FileIndex → FileIndex
enter i j [] m = m
enter i j (file_id ∷ rest) m =
    enter i (suc j) rest
      (record m { chunk_of = (file_id, i) ∷ m.chunk_of; index_of = (file_id, i + j) ∷ m.index_of })

-- The outer loop, on the rounds that are left at most.
unfoldable pub split_from : ℕ → ℕ → List ℕ → FileIndex → FileIndex
unfolding chunk_at enter
split_from zero i file_ids m = m
split_from (suc rounds) i file_ids m =
    let entered = enter i 0 (chunk_at file_ids i) m in
    let rest =
      split_from rounds (i + chunk_size) file_ids
        (record entered { chunks = entered.chunks ++ (i ∷ []) }) in
    if ltb i (length file_ids) then rest else m

-- A chunk holds a file at least, so there are no more rounds than files.
unfoldable pub split : List ℕ → FileIndex
unfolding split_from
split file_ids = split_from (length file_ids) 0 file_ids no_files

-- Where the chunks behind `i` begin, for `n` files.
unfoldable pub starts : ℕ → ℕ → ℕ → List ℕ
starts zero i n = []
starts (suc rounds) i n =
    let rest = starts rounds (i + chunk_size) n in if ltb i n then i ∷ rest else []

enter-chunks : (i j : ℕ) (fs : List ℕ) (m : FileIndex) → (enter i j fs m).chunks ≡ m.chunks
unfolding enter
enter-chunks i j [] m = refl
enter-chunks i j (f ∷ fs) m = enter-chunks i (suc j) fs _

split_from-chunks :
    (rounds i : ℕ) (ids : List ℕ) (m : FileIndex)
    → (split_from rounds i ids m).chunks ≡ m.chunks ++ starts rounds i (length ids)
unfolding split_from starts
split_from-chunks zero i ids m = sym (append-nil m.chunks)
split_from-chunks (suc rounds) i ids m = elim (Bool-cases (ltb i (length ids))) [
  | inl e ↦ rw e (
      split_from-chunks rounds (i + chunk_size) ids _
      ∙ ap (λ cs. (cs ++ (i ∷ [])) ++ starts rounds (i + chunk_size) (length ids))
          (enter-chunks i 0 (chunk_at ids i) m)
      ∙ append_assoc m.chunks (i ∷ []) _)
  | inr e ↦ rw e (sym (append-nil m.chunks))
]

pub split-chunks : (ids : List ℕ) → (split ids).chunks ≡ starts (length ids) 0 (length ids)
unfolding split
split-chunks ids = split_from-chunks (length ids) 0 ids no_files

-- Where the rounds suffice, the chunks are the multiples of the size from `i` on.
pub has-starts :
    (rounds i n c k : ℕ)
    → n ≤ i + rounds
    → c ≡ i + k * chunk_size
    → c < n
    → has c (starts rounds i n) ≡ true
unfolding has starts
has-starts zero i n c k enough e h = absurd (omega arith)
has-starts (suc rounds) i n c zero enough e h = ground arith
has-starts (suc rounds) i n c (suc k) enough e h =
    ground (arith, has-starts rounds (i + chunk_size) n c k)

pub starts-bounds :
    (rounds i n c : ℕ) → has c (starts rounds i n) ≡ true → (i ≤ c) × (c < n) × (c % 256 ≡ i % 256)
unfolding has starts
starts-bounds zero i n c h = cc
starts-bounds (suc rounds) i n c h = ground (arith, starts-bounds rounds (i + chunk_size) n c)

pub starts-Distinct : (rounds i n : ℕ) → Distinct (starts rounds i n)
unfolding starts
starts-Distinct zero i n = tt
starts-Distinct (suc rounds) i n = elim (Bool-cases (ltb i n)) [
  | inl e ↦ rw e (fresh, starts-Distinct rounds (i + chunk_size) n)
  | inr e ↦ rw e tt
]
  where
    fresh : has i (starts rounds (i + chunk_size) n) ≡ false
    fresh = elim (Bool-cases (has i (starts rounds (i + chunk_size) n))) [
      | inl e ↦ let b = starts-bounds rounds (i + chunk_size) n i e in absurd (omega arith)
      | inr e ↦ e
    ]

unfoldable pub concat_chunks : List ℕ → List ℕ → List ℕ
unfolding chunk_at
concat_chunks ids [] = []
concat_chunks ids (c ∷ cs) = chunk_at ids c ++ concat_chunks ids cs
