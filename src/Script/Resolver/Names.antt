-- ===== src/Script/Resolver/Names.antt =====
-- Names in the resolvers of utils/script/resolver.ts.
use hydrui.Base.{
  ◌≡◌, refl, ap, ◌∙◌, false, Option, none, some, List, [], ◌∷◌, Text, eq_text, eq_text→eq,
  eq_text_refl, Bool-cases, inl, inr,
}
use hydrui.Script.Resolver.{Resolver, standard, scope, speculative, get, put, assign, resolve}

module _ {ℓ} {V : Type ℓ} where
  pub get-put : (x : Text) (v : V) (m : List (Text × V)) → get x (put x v m) ≡ some v
  unfolding get put
  get-put x v [] = rw (eq_text_refl x) refl
  get-put x v ((y, w) ∷ m) = elim (Bool-cases (eq_text y x)) [
    | inl e ↦ rw (e, e) refl
    | inr e ↦ rw (e, e) (get-put x v m)
  ]

  pub get-put_other :
      (x y : Text) (v : V) (m : List (Text × V)) → eq_text x y ≡ false → get y (put x v m) ≡ get y m
  unfolding get put
  get-put_other x y v [] other = rw other refl
  get-put_other x y v ((z, w) ∷ m) other = elim (Bool-cases (eq_text z x)) [
    | inl e ↦
        let not_here : eq_text z y ≡ false = ap (λ t. eq_text t y) (eq_text→eq z x e) ∙ other in
        rw (e, not_here) refl
    | inr e ↦ elim (Bool-cases (eq_text z y)) [
      | inl e₁ ↦ rw (e, e₁) refl
      | inr e₁ ↦ rw (e, e₁) (get-put_other x y v m other)
    ]
  ]

abbrev pub value_of {ℓ} : {V : Type ℓ} → Option (V × Resolver V) → Option V
value_of none = none
value_of (some (v, r)) = some v

module _ {ℓ} {V : Type ℓ} (file_type : V) (variable : V → V) where
  -- The value of a name, without what is left of the resolver.
  abbrev pub value : Text → Resolver V → Option V
  value x r = value_of (resolve file_type variable x r)

  -- In each of the three resolvers a name that was just assigned resolves to the value that it was
  -- assigned, and the resolver stays as it is.
  pub resolve-assign :
      (x : Text) (v : V) (r : Resolver V)
      → resolve file_type variable x (assign file_type variable x v r)
        ≡ some (v, assign file_type variable x v r)
  unfolding resolve assign
  resolve-assign x v (standard locals globals) = rw (get-put x v locals) refl
  resolve-assign x v (scope locals parent) = rw (get-put x v locals) refl
  resolve-assign x v (speculative shadows parent) = rw (get-put x v shadows) refl
