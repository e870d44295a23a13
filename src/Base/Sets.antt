-- ===== src/Base/Sets.antt =====
-- Lists of numbers as sets: `Array.includes` and `Set.has`, `filter`, and lists with no repetition.
use Prim.Native.Nat.{ℕ, zero, suc, ◌+◌}
use mathlib.Core.Path.{◌≡◌, refl, ap, sym, ◌∙◌}
use mathlib.Core.Bool.{Bool, true, false, not, ◌&&◌, ◌||◌}
use mathlib.Core.Option.{some}
use mathlib.Core.Logic.{inl, inr}
use mathlib.Core.List.{List, [], ◌∷◌, ◌++◌}
use native.Mathlib.Omega.{arith}
use hydrui.Base.Tests.{◌==◌, if◌then◌else◌, Bool-cases}
use hydrui.Base.Lists.{get_elem?}

unfoldable pub has : ℕ → List ℕ → Bool
has a [] = false
has a (x ∷ xs) = (x == a) || has a xs

unfoldable pub filter {ℓ} : {A : Type ℓ} → (A → Bool) → List A → List A
filter p [] = []
filter p (x ∷ xs) = let rest = filter p xs in if p x then x ∷ rest else rest

-- `filter((x) => !xs.includes(x))`
abbrev pub outside : List ℕ → ℕ → Bool
outside xs a = not (has a xs)

abbrev pub Distinct : List ℕ → Type 0
Distinct [] = Unit
Distinct (x ∷ xs) = (has x xs ≡ false) × Distinct xs

pub has-append : (a : ℕ) (xs ys : List ℕ) → has a (xs ++ ys) ≡ (has a xs || has a ys)
unfolding has
has-append a [] ys = refl
has-append a (x ∷ xs) ys = ground (arith, has-append a xs ys)

pub has-filter : (a : ℕ) (p : ℕ → Bool) (xs : List ℕ) → has a (filter p xs) ≡ (p a && has a xs)
unfolding has filter
has-filter a p [] = ground arith
has-filter a p (x ∷ xs) = elim (Bool-cases (x == a)) [
  | inl e ↦ let same : x ≡ a = ground arith in rw same (ground (arith, has-filter a p xs))
  | inr e ↦ ground (arith, has-filter a p xs)
]

pub Distinct-filter : (p : ℕ → Bool) (xs : List ℕ) → Distinct xs → Distinct (filter p xs)
unfolding filter
Distinct-filter p [] h = tt
Distinct-filter p (x ∷ xs) h = elim (Bool-cases (p x)) [
  | inl e ↦ rw e (ground (arith, has-filter x p xs), Distinct-filter p xs h.1)
  | inr e ↦ rw e (Distinct-filter p xs h.1)
]

pub Distinct-append :
    (xs ys : List ℕ)
    → Distinct xs
    → Distinct ys
    → ((a : ℕ) → has a xs ≡ true → has a ys ≡ false)
    → Distinct (xs ++ ys)
unfolding has
Distinct-append [] ys h k apart = k
Distinct-append (x ∷ xs) ys h k apart = (
  ground (arith, has-append x xs ys, apart x),
  Distinct-append xs ys h.1 k (λ a m. apart a (ground arith)),
)

-- An element stands at an index.
pub has-get_elem? : (xs : List ℕ) (i a : ℕ) → get_elem? xs i ≡ some a → has a xs ≡ true
unfolding has
has-get_elem? [] i a h = cc
has-get_elem? (x ∷ xs) zero a h = ground arith
has-get_elem? (x ∷ xs) (suc i) a h = ground (arith, has-get_elem? xs i a)

-- `new Set(xs)`, in the order of the first occurrences behind `seen`.
unfoldable pub unique : List ℕ → List ℕ → List ℕ
unfolding has
unique seen [] = []
unique seen (x ∷ xs) =
    let rest = unique seen xs in
    let fresh = unique (x ∷ seen) xs in if has x seen then rest else x ∷ fresh

pub has-unique :
    (a : ℕ) (seen xs : List ℕ) → has a (unique seen xs) ≡ (not (has a seen) && has a xs)
unfolding has unique
has-unique a seen [] = ground arith
has-unique a seen (x ∷ xs) = elim (Bool-cases (x == a)) [
  | inl e ↦
      let same : x ≡ a = ground arith in
      rw same (ground (arith, has-unique a seen xs, has-unique a (a ∷ seen) xs))
  | inr e ↦ ground (arith, has-unique a seen xs, has-unique a (x ∷ seen) xs)
]

pub Distinct-unique : (seen xs : List ℕ) → Distinct (unique seen xs)
unfolding unique
Distinct-unique seen [] = tt
Distinct-unique seen (x ∷ xs) = elim (Bool-cases (has x seen)) [
  | inl e ↦ rw e (Distinct-unique seen xs)
  | inr e ↦ rw e (lem x seen xs, Distinct-unique (x ∷ seen) xs)
]
  where
    lem : (x : ℕ) (seen xs : List ℕ) → has x (unique (x ∷ seen) xs) ≡ false
    lem x seen xs = ground (arith, has-unique x (x ∷ seen) xs)

-- The sum of what the elements weigh.
unfoldable pub total : (ℕ → ℕ) → List ℕ → ℕ
total w [] = 0
total w (x ∷ xs) = w x + total w xs

-- All but `a`.
abbrev pub but : ℕ → ℕ → Bool
but a b = not (b == a)

filter-but_fresh : (a : ℕ) (xs : List ℕ) → has a xs ≡ false → filter (but a) xs ≡ xs
unfolding has filter
filter-but_fresh a [] h = refl
filter-but_fresh a (x ∷ xs) h = ground (arith, filter-but_fresh a xs)

total-but :
    (w : ℕ → ℕ) (a : ℕ) (xs : List ℕ)
    → Distinct xs
    → has a xs ≡ true
    → total w xs ≡ w a + total w (filter (but a) xs)
unfolding has filter total
total-but w a [] d h = cc
total-but w a (x ∷ xs) d h = elim (Bool-cases (x == a)) [
  | inl e ↦
      let same : x ≡ a = ground arith in
      let fresh : has a xs ≡ false = rw same at d.0 in
      let kept : filter (but a) xs ≡ xs = filter-but_fresh a xs fresh in
      rw (e, kept) (ap (λ n. w n + total w xs) same)
  | inr e ↦ rw e (omega (arith, total-but w a xs d.1 (ground arith)))
]

-- Distinct lists with the same elements weigh the same.
pub total-eq_of_same :
    (w : ℕ → ℕ) (xs ys : List ℕ)
    → Distinct xs
    → Distinct ys
    → ((a : ℕ) → has a xs ≡ has a ys)
    → total w xs ≡ total w ys
unfolding has total
total-eq_of_same w [] [] d k same = refl
total-eq_of_same w [] (y ∷ ys) d k same = let h = same y in ground arith
total-eq_of_same w (x ∷ xs) ys d k same =
    let found : has x ys ≡ true = sym (same x) ∙ first x xs in
    let rest =
      total-eq_of_same w xs (filter (but x) ys) d.1 (Distinct-filter (but x) ys k)
        (λ a. other a x xs ys (same a) d.0) in
    omega (arith, total-but w x ys k found)
  where
    first : (x : ℕ) (xs : List ℕ) → has x (x ∷ xs) ≡ true
    first x xs = ground arith

    other :
        (a x : ℕ) (xs ys : List ℕ)
        → has a (x ∷ xs) ≡ has a ys
        → has x xs ≡ false
        → has a xs ≡ has a (filter (but x) ys)
    other a x xs ys e fresh = elim (Bool-cases (x == a)) [
      | inl s ↦
          let eq : x ≡ a = ground arith in
          let gone : has a xs ≡ false = rw eq at fresh in ground (arith, has-filter a (but x) ys)
      | inr s ↦ ground (arith, has-filter a (but x) ys)
    ]
