-- ===== src/Script/Resolver/Shadows.antt =====
-- The state that a `resolve` of utils/script/resolver.ts leaves.
use hydrui.Base.{
  ◌≡◌, refl, sym, ap, ◌∙◌, Option, none, some, List, Text, eq_text, eq_text→eq, Bool-cases,
  Option-cases, inl, inr,
}
use hydrui.Script.Resolver.{
  Resolver, standard, scope, speculative, get, put, resolve, in_scope, found_in, shadowed,
  with_resolver,
}
use hydrui.Script.Resolver.Names.{get-put, get-put_other, value_of, value}

abbrev pub first_of {ℓ} : {A : Type ℓ} → Option A → Option A → Option A
first_of (some v) o = some v
first_of none o = o

module _ {ℓ} {V : Type ℓ} (file_type : V) (variable : V → V) where
  abbrev pub wrapped : Option V → Option V
  wrapped none = none
  wrapped (some v) = some (variable v)

  in_scope-value :
      (locals : List (Text × V)) (o : Option (V × Resolver V))
      → value_of (in_scope file_type variable locals o) ≡ value_of o
  in_scope-value locals none = refl
  in_scope-value locals (some (v, r)) = refl

  shadowed-value :
      (x : Text) (shadows : List (Text × V)) (o : Option (V × Resolver V))
      → value_of (shadowed file_type variable x shadows o) ≡ wrapped (value_of o)
  shadowed-value x shadows none = refl
  shadowed-value x shadows (some (v, r)) = refl

  found_in-value :
      (o : Option V) (r : Resolver V) (behind : Option (V × Resolver V))
      → value_of (found_in file_type variable o r behind) ≡ first_of o (value_of behind)
  found_in-value none r behind = refl
  found_in-value (some v) r behind = refl

  pub value-scope :
      (x : Text) (locals : List (Text × V)) (parent : Resolver V)
      → value file_type variable x (scope locals parent)
        ≡ first_of (get x locals) (value file_type variable x parent)
  unfolding resolve
  value-scope x locals parent =
      found_in-value (get x locals) (scope locals parent) _
      ∙ ap (first_of (get x locals)) (in_scope-value locals (resolve file_type variable x parent))

  pub value-speculative :
      (x : Text) (shadows : List (Text × V)) (parent : Resolver V)
      → value file_type variable x (speculative shadows parent)
        ≡ first_of (get x shadows) (wrapped (value file_type variable x parent))
  unfolding resolve
  value-speculative x shadows parent =
      found_in-value (get x shadows) (speculative shadows parent) _
      ∙ ap (first_of (get x shadows))
          (shadowed-value x shadows (resolve file_type variable x parent))

  -- A name that a scope does not have comes from the parent, and the parent may have changed.
  from_parent :
      (locals : List (Text × V)) (o : Option (V × Resolver V)) (v : V) (r : Resolver V)
      → in_scope file_type variable locals o ≡ some (v, r)
      → (parent : Resolver V) × (o ≡ some (v, parent)) × (scope locals parent ≡ r)
  from_parent locals none v r h = cc
  from_parent locals (some (w, parent)) v r h = (parent, cc, cc)

  from_shadowed :
      (x : Text) (shadows : List (Text × V)) (o : Option (V × Resolver V)) (v : V) (r : Resolver V)
      → shadowed file_type variable x shadows o ≡ some (v, r)
      → (w : V) × (parent : Resolver V) × (o ≡ some (w, parent))
        × (variable w ≡ v)
        × (speculative (put x (variable w) shadows) parent ≡ r)
  from_shadowed x shadows none v r h = cc
  from_shadowed x shadows (some (w, parent)) v r h = (w, parent, refl, cc, cc)

  found :
      (o : Option V) (r s : Resolver V) (v : V)
      → with_resolver file_type variable r o ≡ some (v, s)
      → r ≡ s
  found none r s v h = cc
  found (some w) r s v h = cc

  abbrev Same : Resolver V → Resolver V → Type ℓ
  Same r s = (y : Text) → value file_type variable y s ≡ value file_type variable y r

  scope-Same :
      (locals : List (Text × V)) (r s : Resolver V)
      → Same r s
      → Same (scope locals r) (scope locals s)
  scope-Same locals r s same y =
      value-scope y locals s
      ∙ (ap (first_of (get y locals)) (same y) ∙ sym (value-scope y locals r))

  -- The shadow of a name is the variable that the name would have been wrapped in.
  shadow-Same :
      (x : Text) (shadows : List (Text × V)) (w : V) (r s : Resolver V)
      → get x shadows ≡ none
      → value file_type variable x r ≡ some w
      → Same r s
      → Same (speculative shadows r) (speculative (put x (variable w) shadows) s)
  shadow-Same x shadows w r s fresh is_w same y = elim (Bool-cases (eq_text x y)) [
    | inl e ↦
        let x_is_y : x ≡ y = eq_text→eq x y e in
        rw (← x_is_y) (
          value-speculative x (put x (variable w) shadows) s
          ∙ (rw (get-put x (variable w) shadows)
              (sym (rw (value-speculative x shadows r, fresh, is_w) refl))))
    | inr e ↦
        value-speculative y (put x (variable w) shadows) s
        ∙ (rw (get-put_other x y (variable w) shadows e, same y) refl
            ∙ sym (value-speculative y shadows r))
  ]

  -- A name that the resolver has itself leaves the resolver as it is.
  own :
      (w : V) (r s : Resolver V) (v : V)
      → with_resolver file_type variable r (some w) ≡ some (v, s)
      → r ≡ s
  own w r s v h = cc

  resolve-Same :
      (x : Text) (r : Resolver V) (v : V) (s : Resolver V)
      → resolve file_type variable x r ≡ some (v, s)
      → Same r s
  unfolding resolve
  resolve-Same x (standard locals globals) v s h =
      λ y. rw (← found _ (standard locals globals) s v h) refl
  resolve-Same x (scope locals parent) v s h = elim (Option-cases (get x locals)) [
    | inr (w, e) ↦ λ y. rw (← own w (scope locals parent) s v (rw e at h)) refl
    | inl e ↦
        let (changed, resolved, is_s) =
          from_parent locals (resolve file_type variable x parent) v s (rw e at h) in
        rw (← is_s) (scope-Same locals parent changed (resolve-Same x parent v changed resolved))
  ]
  resolve-Same x (speculative shadows parent) v s h = elim (Option-cases (get x shadows)) [
    | inr (w, e) ↦ λ y. rw (← own w (speculative shadows parent) s v (rw e at h)) refl
    | inl e ↦
        let (w, changed, resolved, _, is_s) =
          from_shadowed x shadows (resolve file_type variable x parent) v s (rw e at h) in
        rw (← is_s) (
          shadow-Same x shadows w parent changed e (ap value_of resolved)
            (resolve-Same x parent w changed resolved))
  ]

  -- Where `x` is resolved, every name keeps its value, and `x` has the value that was given.
  pub resolve-value :
      (x y : Text) (r : Resolver V) (v : V) (s : Resolver V)
      → resolve file_type variable x r ≡ some (v, s)
      → (value file_type variable y s ≡ value file_type variable y r)
        × (value file_type variable x s ≡ some v)
  resolve-value x y r v s h = let same = resolve-Same x r v s h in (same y, same x ∙ ap value_of h)
