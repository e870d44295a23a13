-- ===== src/Store/Page/Slots.antt =====
-- The sparse array of the loaded files of store/pageStore.ts, and what a reply of the client writes to it.
use hydrui.Base.{
  Bool, ◌||◌, ℕ, zero, suc, ◌<◌, ◌≤◌, max, ◌≡◌, refl, ap, sym, ◌∙◌, false, none, some, Option, List,
  [], ◌∷◌, map, arith, length, has, if◌then◌else◌, Bool-cases, Option-cases, inl, inr, ◌==◌,
  get_elem?, get_elem?-lt-length,
}
use hydrui.Store.Page.{FileMetadata, entry}
use hydrui.Store.Page.Load.{put_at, put_file, put_files, filled}
use hydrui.Store.Page.Indexed.{IsIndexed}

pub filled-put_at {ℓ} :
    {A : Type ℓ} (i j : ℕ) (v : A) (xs : List (Option A))
    → filled (put_at i v xs) j ≡ (if i == j then some v else filled xs j)
unfolding filled put_at
filled-put_at zero zero v [] = refl
filled-put_at zero (suc j) v [] = ground arith
filled-put_at zero zero v (x ∷ xs) = refl
filled-put_at zero (suc j) v (x ∷ xs) = ground arith
filled-put_at (suc i) zero v [] = ground arith
filled-put_at (suc i) (suc j) v [] = ground (arith, filled-put_at i j v [])
filled-put_at (suc i) zero v (x ∷ xs) = ground arith
filled-put_at (suc i) (suc j) v (x ∷ xs) = ground (arith, filled-put_at i j v xs)

pub length-put_at {ℓ} :
    {A : Type ℓ} (i : ℕ) (v : A) (xs : List (Option A))
    → length (put_at i v xs) ≡ max (suc i) (length xs)
unfolding put_at
length-put_at zero v [] = omega arith
length-put_at zero v (x ∷ xs) = omega arith
length-put_at (suc i) v [] = omega (arith, length-put_at i v [])
length-put_at (suc i) v (x ∷ xs) = omega (arith, length-put_at i v xs)

pub filled-lt-length {ℓ} :
    {A : Type ℓ} (xs : List (Option A)) (i : ℕ) (v : A) → filled xs i ≡ some v → i < length xs
unfolding filled
filled-lt-length [] i v h = cc
filled-lt-length (x ∷ xs) zero v h = omega arith
filled-lt-length (x ∷ xs) (suc i) v h = omega (arith, filled-lt-length xs i v h)

-- A sparse array with no hole.
pub filled_ext {ℓ} :
    {A : Type ℓ} (f : ℕ → A) (xs : List (Option A)) (ids : List ℕ)
    → length xs ≡ length ids
    → ((p a : ℕ) → get_elem? ids p ≡ some a → filled xs p ≡ some (f a))
    → xs ≡ map (λ a. some (f a)) ids
unfolding filled
filled_ext f [] [] e h = refl
filled_ext f [] (a ∷ ids) e h = absurd (omega arith)
filled_ext f (x ∷ xs) [] e h = absurd (omega arith)
filled_ext f (x ∷ xs) (a ∷ ids) e h =
    cc (h 0 a refl, filled_ext f xs ids (omega arith) (λ p. h (suc p)))

module _ (ids : List ℕ) (meta : ℕ → FileMetadata) (honest : (a : ℕ) → (meta a).file_id ≡ a)
    (index : List (ℕ × ℕ)) (indexed : IsIndexed ids (length ids) index) where
  filled-put_file :
      (p a f : ℕ) (loaded : List (Option FileMetadata))
      → get_elem? ids p ≡ some a
      → filled (put_file (entry f index) (meta f) loaded) p
        ≡ (if f == a then some (meta a) else filled loaded p)
  filled-put_file p a f loaded at = elim (Bool-cases (f == a)) [
    | inl e ↦
        let same : f ≡ a = ground arith in
        let found = indexed.present a p (get_elem?-lt-length ids p at) at in
        rw (e, same, found) (filled-put_at p p (meta a) loaded ∙ self p)
    | inr e ↦ elim (Option-cases (entry f index)) [
      | inl lost ↦ rw (e, lost) refl
      | inr (i, found) ↦
          let there = indexed.right f i found in
          let apart : (i == p) ≡ false = elim (Bool-cases (i == p)) [
            | inl same ↦
                let q : i ≡ p = ground arith in
                let twice : some f ≡ some a = sym there ∙ ap (get_elem? ids) q ∙ at in ground arith
            | inr other ↦ other
          ] in
          rw (e, found) (ground (arith, filled-put_at i p (meta f) loaded))
    ]
  ]
    where
      self : (p : ℕ) → (if p == p then some (meta a) else filled loaded p) ≡ some (meta a)
      self p = ground arith

  pub filled-put_files :
      (p a : ℕ) (fs : List ℕ) (loaded : List (Option FileMetadata))
      → get_elem? ids p ≡ some a
      → filled (put_files index (map meta fs) loaded) p
        ≡ (if has a fs then some (meta a) else filled loaded p)
  unfolding put_files has
  filled-put_files p a [] loaded at = refl
  filled-put_files p a (f ∷ fs) loaded at =
      let here =
        ap (λ k. filled (put_file (entry k index) (meta f) loaded) p) (honest f)
        ∙ filled-put_file p a f loaded at in
      let rest =
        filled-put_files p a fs (put_file (entry (meta f).file_id index) (meta f) loaded) at in
      rest ∙ step (f == a) (has a fs) here
    where
      step :
          (x y : Bool) {o : Option FileMetadata}
          → o ≡ (if x then some (meta a) else filled loaded p)
          → (if y then some (meta a) else o) ≡ (if x || y then some (meta a) else filled loaded p)
      step x y h = ground arith

  pub length-put_files :
      (fs : List ℕ) (loaded : List (Option FileMetadata))
      → length loaded ≤ length ids
      → length (put_files index (map meta fs) loaded) ≤ length ids
  unfolding put_files
  length-put_files [] loaded h = h
  length-put_files (f ∷ fs) loaded h =
      length-put_files fs _ (put (entry (meta f).file_id index) refl)
    where
      put :
          (o : Option ℕ)
          → entry (meta f).file_id index ≡ o
          → length (put_file o (meta f) loaded) ≤ length ids
      put none e = h
      put (some i) e =
          omega (
            arith,
            length-put_at i (meta f) loaded,
            get_elem?-lt-length ids i (indexed.right _ i e),
          )
