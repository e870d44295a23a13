-- ===== src/Script/Resolver/Suggested.antt =====
-- The names that the resolvers of utils/script/resolver.ts suggest.
use hydrui.Base.{
  ◌≡◌, refl, sym, ap, ◌∙◌, Bool, true, false, ◌||◌, Option, none, some, List, [], ◌∷◌, ◌++◌, Text,
  codes, eq_text, eq_text→eq, Bool-cases, inl, inr,
}
use hydrui.Script.Resolver.{
  Resolver, standard, scope, speculative, get, keys, holds, distinct_from, resolve, suggestions,
  with_resolver, or_else, built_in,
}
use hydrui.Script.Resolver.Names.{value, value_of}
use hydrui.Script.Resolver.Shadows.{first_of, wrapped, value-scope, value-speculative}

abbrev pub is_some {ℓ} : {A : Type ℓ} → Option A → Bool
is_some none = false
is_some (some a) = true

holds-append : (x : Text) (xs ys : List Text) → holds x (xs ++ ys) ≡ (holds x xs || holds x ys)
unfolding holds
holds-append x [] ys = refl
holds-append x (y ∷ xs) ys = elim (Bool-cases (eq_text y x)) [
  | inl e ↦ rw e refl
  | inr e ↦ rw e (holds-append x xs ys)
]

-- What is left out has been seen.
distinct_from-holds :
    (x : Text) (seen xs : List Text)
    → (holds x seen || holds x (distinct_from seen xs)) ≡ (holds x seen || holds x xs)
unfolding distinct_from holds
distinct_from-holds x seen [] = refl
distinct_from-holds x seen (y ∷ xs) = elim (Bool-cases (holds y seen)) [
  | inl e ↦ elim (Bool-cases (eq_text y x)) [
    | inl same ↦
        let was : holds x seen ≡ true = ap (λ t. holds t seen) (sym (eq_text→eq y x same)) ∙ e in
        rw (e, same, was) refl
    | inr other ↦ rw (e, other) (distinct_from-holds x seen xs)
  ]
  | inr e ↦ elim (Bool-cases (eq_text y x)) [
    | inl same ↦ rw (e, same) refl
    | inr other ↦ rw (e, other) (rw other at (distinct_from-holds x (y ∷ seen) xs))
  ]
]

module _ {ℓ} {V : Type ℓ} where
  get-keys : (x : Text) (m : List (Text × V)) → is_some (get x m) ≡ holds x (keys m)
  unfolding get keys holds
  get-keys x [] = refl
  get-keys x ((y, v) ∷ m) = elim (Bool-cases (eq_text y x)) [
    | inl e ↦ rw e refl
    | inr e ↦ rw e (get-keys x m)
  ]

is_some-or {ℓ} : {A : Type ℓ} (o p : Option A) → is_some (first_of o p) ≡ (is_some o || is_some p)
is_some-or none p = refl
is_some-or (some a) p = refl

or_assoc : (a b c : Bool) → ((a || b) || c) ≡ (a || (b || c))
or_assoc true b c = refl
or_assoc false b c = refl

module _ {ℓ} {V : Type ℓ} (file_type : V) (variable : V → V) where
  wrapped-is_some : (o : Option V) → is_some (wrapped file_type variable o) ≡ is_some o
  wrapped-is_some none = refl
  wrapped-is_some (some v) = refl

  with_resolver-value :
      (r : Resolver V) (o : Option V) → value_of (with_resolver file_type variable r o) ≡ o
  with_resolver-value r none = refl
  with_resolver-value r (some v) = refl

  or_else-first_of : (o p : Option V) → or_else file_type variable o p ≡ first_of o p
  or_else-first_of none p = refl
  or_else-first_of (some v) p = refl

  built_in-is_some : (x : Text) → is_some (built_in file_type variable x) ≡ eq_text x (codes "File")
  built_in-is_some x = elim (Bool-cases (eq_text x (codes "File"))) [
    | inl e ↦ rw e refl
    | inr e ↦ rw e refl
  ]

  -- A layer in front of others whose names are known.
  layer :
      (x : Text) (m : List (Text × V)) (o : Option V) (names : List Text) (b : Bool)
      → is_some o ≡ (holds x names || b)
      → is_some (first_of (get x m) o) ≡ (holds x (distinct_from [] (keys m ++ names)) || b)
  unfolding holds
  layer x m o names b h =
      is_some-or (get x m) o
      ∙ (ap (λ c. c || is_some o) (get-keys x m)
          ∙ (ap (λ c. holds x (keys m) || c) h
              ∙ (sym (or_assoc (holds x (keys m)) (holds x names) b)
                  ∙ ap (λ c. c || b)
                      (sym (holds-append x (keys m) names)
                        ∙ sym (distinct_from-holds x [] (keys m ++ names))))))

  value-standard :
      (x : Text) (locals globals : List (Text × V))
      → value file_type variable x (standard locals globals)
        ≡ first_of (get x locals) (first_of (get x globals) (built_in file_type variable x))
  unfolding resolve
  value-standard x locals globals =
      let behind = or_else-first_of (get x globals) (built_in file_type variable x) in
      with_resolver-value (standard locals globals) _
      ∙ (or_else-first_of (get x locals) _ ∙ ap (first_of (get x locals)) behind)

  -- The names that have a value are those that are suggested, and `File`.
  pub suggestions-value :
      (x : Text) (r : Resolver V)
      → is_some (value file_type variable x r)
        ≡ (holds x (suggestions file_type variable r) || eq_text x (codes "File"))
  unfolding suggestions
  suggestions-value x (standard locals globals) =
      let built = built_in file_type variable x in
      ap is_some (value-standard x locals globals)
      ∙ layer x locals (first_of (get x globals) built) (keys globals) (eq_text x (codes "File")) (
          is_some-or (get x globals) built
          ∙ (ap (λ b. b || is_some built) (get-keys x globals)
              ∙ ap (λ b. holds x (keys globals) || b) (built_in-is_some x)))
  suggestions-value x (scope locals parent) =
      ap is_some (value-scope file_type variable x locals parent)
      ∙ layer x locals _ (suggestions file_type variable parent) (eq_text x (codes "File"))
          (suggestions-value x parent)
  suggestions-value x (speculative shadows parent) =
      ap is_some (value-speculative file_type variable x shadows parent)
      ∙ layer x shadows _ (suggestions file_type variable parent) (eq_text x (codes "File"))
          (wrapped-is_some (value file_type variable x parent) ∙ suggestions-value x parent)
