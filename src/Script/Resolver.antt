-- ===== src/Script/Resolver.antt =====
-- The name spaces of utils/script/resolver.ts.
--
-- Values are any type: what a resolver does with one is to keep it, and to wrap it in a `Variable`. A
-- resolver is its maps and its parent's, since `resolve` of a speculative one writes to its map.
pub mod Names
pub mod Shadows
pub mod Suggested
use hydrui.Base.{
  ℕ, zero, suc, Bool, true, false, ◌||◌, Option, none, some, List, [], ◌∷◌, ◌++◌, Text, codes,
  eq_text, if◌then◌else◌, take, length, is_empty,
}

-- A `Map` with its keys in the order of insertion.
module _ {ℓ} {V : Type ℓ} where
  unfoldable pub get : Text → List (Text × V) → Option V
  get x [] = none
  get x ((y, v) ∷ m) = if eq_text y x then some v else get x m

  unfoldable pub put : Text → V → List (Text × V) → List (Text × V)
  put x v [] = (x, v) ∷ []
  put x v ((y, w) ∷ m) = let rest = put x v m in if eq_text y x then (y, v) ∷ m else (y, w) ∷ rest

  unfoldable pub keys : List (Text × V) → List Text
  keys [] = []
  keys ((x, v) ∷ m) = x ∷ keys m

pub data Resolver {ℓ} (V : Type ℓ) : Type ℓ where
  standard : List (Text × V) → List (Text × V) → Resolver V
  scope : List (Text × V) → Resolver V → Resolver V
  speculative : List (Text × V) → Resolver V → Resolver V

-- `[...new Set(names)]`
unfoldable pub holds : Text → List Text → Bool
holds x [] = false
holds x (y ∷ ys) = if eq_text y x then true else holds x ys

unfoldable pub distinct_from : List Text → List Text → List Text
unfolding holds
distinct_from seen [] = []
distinct_from seen (x ∷ xs) =
    let more = x ∷ distinct_from (x ∷ seen) xs in
    let same = distinct_from seen xs in if holds x seen then same else more

abbrev pub distinct : List Text → List Text
distinct xs = distinct_from [] xs

-- `file_type` is `new FileTypeValue()`, and `variable` is `new Variable(value)`.
module _ {ℓ} {V : Type ℓ} (file_type : V) (variable : V → V) where
  unfoldable pub assign : Text → V → Resolver V → Resolver V
  unfolding put
  assign x v (standard locals globals) = standard (put x v locals) globals
  assign x v (scope locals parent) = scope (put x v locals) parent
  assign x v (speculative shadows parent) = speculative (put x v shadows) parent

  abbrev pub built_in : Text → Option V
  built_in x = if eq_text x (codes "File") then some file_type else none

  abbrev pub or_else : Option V → Option V → Option V
  or_else (some v) o = some v
  or_else none o = o

  -- The value, and the resolver as it is afterwards; `none` is the error "No such value".
  abbrev pub found_in : Option V → Resolver V → Option (V × Resolver V) → Option (V × Resolver V)
  found_in (some v) r behind = some (v, r)
  found_in none r behind = behind

  abbrev pub in_scope : List (Text × V) → Option (V × Resolver V) → Option (V × Resolver V)
  in_scope locals none = none
  in_scope locals (some (v, parent)) = some (v, scope locals parent)

  abbrev pub shadowed : Text → List (Text × V) → Option (V × Resolver V) → Option (V × Resolver V)
  shadowed x shadows none = none
  shadowed x shadows (some (v, parent)) =
      some (variable v, speculative (put x (variable v) shadows) parent)

  abbrev pub with_resolver : Resolver V → Option V → Option (V × Resolver V)
  with_resolver r none = none
  with_resolver r (some v) = some (v, r)

  unfoldable pub resolve : Text → Resolver V → Option (V × Resolver V)
  unfolding get put
  resolve x (standard locals globals) =
      with_resolver (standard locals globals)
        (or_else (get x locals) (or_else (get x globals) (built_in x)))
  resolve x (scope locals parent) =
      let behind = in_scope locals (resolve x parent) in
      found_in (get x locals) (scope locals parent) behind
  resolve x (speculative shadows parent) =
      let behind = shadowed x shadows (resolve x parent) in
      found_in (get x shadows) (speculative shadows parent) behind

  unfoldable pub suggestions : Resolver V → List Text
  unfolding keys distinct_from
  suggestions (standard locals globals) = distinct (keys locals ++ keys globals)
  suggestions (scope locals parent) = distinct (keys locals ++ suggestions parent)
  suggestions (speculative shadows parent) = distinct (keys shadows ++ suggestions parent)
