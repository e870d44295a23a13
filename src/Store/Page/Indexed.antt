-- ===== src/Store/Page/Indexed.antt =====
-- What `updateWithFileIds` of store/pageStore.ts finds in the maps and chunks that it has built.
use hydrui.Base.{
  ℕ, zero, suc, ◌+◌, ◌/◌, ◌*◌, ◌<◌, ◌≤◌, ◌≡◌, refl, true, some, List, [], ◌∷◌, ◌++◌, arith, length,
  take, drop, ltb, has, Distinct, Bool-cases, inl, inr, take-append-drop, length-drop, length-take,
  get_elem?, ap, sym, ◌∙◌, drop-add, drop-eq-nil, get_elem?-lt-length, get_elem?-drop,
  get_elem?-take, has-get_elem?,
}
use hydrui.Store.Page.{entry}
use hydrui.Store.Page.Chunks.{
  FileIndex, chunk_size, chunk_at, enter, split_from, split, no_files, starts, split-chunks,
  concat_chunks, has-starts, starts-bounds, starts-Distinct,
}

concat_chunks-starts :
    (rounds i : ℕ) (ids : List ℕ)
    → length ids ≤ i + rounds
    → concat_chunks ids (starts rounds i (length ids)) ≡ drop i ids
unfolding concat_chunks starts chunk_at
concat_chunks-starts zero i ids h = sym (drop-eq-nil i ids (omega arith))
concat_chunks-starts (suc rounds) i ids h = elim (Bool-cases (ltb i (length ids))) [
  | inl e ↦ rw e (
      ap (◌++◌ (take chunk_size (drop i ids)))
        (concat_chunks-starts rounds (i + chunk_size) ids (omega arith) ∙ drop-add i chunk_size ids)
      ∙ take-append-drop chunk_size (drop i ids))
  | inr e ↦ rw e (sym (drop-eq-nil i ids (ground arith)))
]

-- A chunk that begins in the page has a file at least, and no more than the size.
chunk_at-bounds :
    (ids : List ℕ) (c : ℕ)
    → c < length ids
    → (0 < length (chunk_at ids c)) × (length (chunk_at ids c) ≤ chunk_size)
unfolding chunk_at
chunk_at-bounds ids c h = omega (arith, length-take chunk_size (drop c ids), length-drop c ids)

-- The chunks, one behind the other, are the file ids of the page; none is empty or larger than
-- `CHUNK_SIZE`, and none is there twice.
pub split-concat_chunks :
    (ids : List ℕ)
    → (concat_chunks ids (split ids).chunks ≡ ids)
      × Distinct (split ids).chunks
      × ((c : ℕ)
          → has c (split ids).chunks ≡ true
          → (0 < length (chunk_at ids c)) × (length (chunk_at ids c) ≤ chunk_size))
split-concat_chunks ids = (
  ap (concat_chunks ids) (split-chunks ids) ∙ concat_chunks-starts (length ids) 0 ids (omega arith),
  rw (split-chunks ids) (starts-Distinct (length ids) 0 (length ids)),
  λ c m.
      chunk_at-bounds ids c
        (starts-bounds (length ids) 0 (length ids) c (ap (has c) (sym (split-chunks ids)) ∙ m)).1,
)

-- The chunk of every index of the page is among the chunks.
pub has-split :
    (ids : List ℕ) (p : ℕ) → p < length ids → has (p / 256 * 256) (split ids).chunks ≡ true
has-split ids p h = rw (split-chunks ids) (
    has-starts (length ids) 0 (length ids) (p / 256 * 256) (p / 256) (omega arith) (omega arith)
      (omega arith))

Distinct-get_elem? :
    (xs : List ℕ) (p q : ℕ) (a : ℕ)
    → Distinct xs
    → get_elem? xs p ≡ some a
    → get_elem? xs q ≡ some a
    → p ≡ q
Distinct-get_elem? [] p q a d h k = cc
Distinct-get_elem? (x ∷ xs) zero zero a d h k = refl
Distinct-get_elem? (x ∷ xs) zero (suc q) a d h k = ground (arith, has-get_elem? xs q a)
Distinct-get_elem? (x ∷ xs) (suc p) zero a d h k = ground (arith, has-get_elem? xs p a)
Distinct-get_elem? (x ∷ xs) (suc p) (suc q) a d h k = ap suc (Distinct-get_elem? xs p q a d.1 h k)

-- Every entry of the map is right, and the file ids in front of `n` have one.
pub record IsIndexed (ids : List ℕ) (n : ℕ) (m : List (ℕ × ℕ)) : Type 0 where
  pub right : (a p : ℕ) → entry a m ≡ some p → get_elem? ids p ≡ some a
  pub present : (a p : ℕ) → p < n → get_elem? ids p ≡ some a → entry a m ≡ some p

module _ (ids : List ℕ) (distinct : Distinct ids) where
  pub add-IsIndexed :
      (n : ℕ) (f : ℕ) (m : List (ℕ × ℕ))
      → get_elem? ids n ≡ some f
      → IsIndexed ids n m
      → IsIndexed ids (suc n) ((f, n) ∷ m)
  unfolding entry
  add-IsIndexed n f m at_n h = record {
    right = λ a p e. ground (arith, h.right a p);
    present = λ a p lt e. ground (arith, h.present a p, Distinct-get_elem? ids n p a distinct);
  }

  enter-IsIndexed :
      (i j : ℕ) (fs : List ℕ) (m : FileIndex)
      → ((k a : ℕ) → get_elem? fs k ≡ some a → get_elem? ids (i + j + k) ≡ some a)
      → IsIndexed ids (i + j) m.index_of
      → IsIndexed ids (i + j + length fs) (enter i j fs m).index_of
  unfolding enter
  enter-IsIndexed i j [] m at_k h = let e : i + j + 0 ≡ i + j = omega arith in rw e h
  enter-IsIndexed i j (f ∷ fs) m at_k h =
      let e : i + suc j ≡ suc (i + j) = omega arith in
      let n : i + j + suc (length fs) ≡ i + suc j + length fs = omega arith in
      let z : i + j + 0 ≡ i + j = omega arith in
      let added = add-IsIndexed (i + j) f m.index_of (rw z at (at_k 0 f refl)) h in
      rw n (
        enter-IsIndexed i (suc j) fs _
          (λ k a g. ap (get_elem? ids) (shift i j k) ∙ at_k (suc k) a g) (rw e added))
    where
      shift : (i j k : ℕ) → i + suc j + k ≡ i + j + suc k
      shift i j k = omega arith

  -- Behind the end there is no file id to have an entry.
  widen-IsIndexed :
      (n k : ℕ) (m : List (ℕ × ℕ))
      → ((p : ℕ) → p < k → p < length ids → p < n)
      → IsIndexed ids n m
      → IsIndexed ids k m
  widen-IsIndexed n k m inside h = record {
    right = h.right;
    present = λ a p lt e. h.present a p (inside p lt (get_elem?-lt-length ids p e)) e;
  }

  enter-chunk_at-IsIndexed :
      (i : ℕ) (m : FileIndex)
      → IsIndexed ids i m.index_of
      → IsIndexed ids (i + chunk_size) (enter i 0 (chunk_at ids i) m).index_of
  unfolding chunk_at
  enter-chunk_at-IsIndexed i m h =
      let z : i + 0 ≡ i = omega arith in
      let entered =
        enter-IsIndexed i 0 (chunk_at ids i) m
          (λ k a g.
            sym (get_elem?-drop i k ids ∙ ap (get_elem? ids) (zero_between i k))
            ∙ get_elem?-take chunk_size k (drop i ids) g)
          (rw z h) in
      widen-IsIndexed _ _ _
        (λ p lt inside. omega (arith, length-take chunk_size (drop i ids), length-drop i ids))
        entered
    where
      zero_between : (i k : ℕ) → i + k ≡ i + 0 + k
      zero_between i k = omega arith

  split_from-IsIndexed :
      (rounds i : ℕ) (m : FileIndex)
      → length ids ≤ i + rounds
      → IsIndexed ids i m.index_of
      → IsIndexed ids (length ids) (split_from rounds i ids m).index_of
  unfolding split_from
  split_from-IsIndexed zero i m enough h = widen-IsIndexed _ _ _ (λ p lt k. omega arith) h
  split_from-IsIndexed (suc rounds) i m enough h = elim (Bool-cases (ltb i (length ids))) [
    | inl e ↦ rw e (
        split_from-IsIndexed rounds (i + chunk_size) _ (omega arith)
          (enter-chunk_at-IsIndexed i m h))
    | inr e ↦ rw e (widen-IsIndexed i (length ids) _ (λ p lt k. ground arith) h)
  ]

  pub split-IsIndexed : IsIndexed ids (length ids) (split ids).index_of
  unfolding split entry
  split-IsIndexed =
      split_from-IsIndexed (length ids) 0 no_files (omega arith)
        (record { right = λ a p e. cc; present = λ a p lt e. absurd (omega arith) })
