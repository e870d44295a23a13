-- ===== src/Script/ResolverTests.antt =====
-- Runs of utils/script/resolver.ts and utils/script/suggest.ts, and their theorems on them. Values are numbers here,
-- and the variable of `n` is `n + 100`.
use hydrui.Base.{◌||◌, Text, List, ◌&&◌, ℕ, ◌+◌, ◌≡◌, refl, none, some, [], ◌∷◌, codes, eq_text}
use hydrui.Script.Resolver.{
  Resolver, standard, scope, speculative, get, put, keys, holds, distinct_from, assign, resolve,
  suggestions,
}
use hydrui.Script.Resolver.Suggested.{is_some, suggestions-value}
use hydrui.Script.Suggest.{
  fuzzy_suggest, sort_choices, trim, trim_start, trim_end, is_blank, starts_with, index_of,
  has_part, fuzzy_suggest-holds,
}
use hydrui.Script.Resolver.Names.{value, resolve-assign}
use hydrui.Script.Resolver.Shadows.{resolve-value}

abbrev variable : ℕ → ℕ
variable n = n + 100

-- A speculative resolver, a scope with `a`, and the globals `a` and `b`.
abbrev nested : Resolver ℕ
nested =
    speculative []
      (scope ((codes "a", 1) ∷ []) (standard [] ((codes "a", 2) ∷ (codes "b", 3) ∷ [])))

abbrev shadowed_a : Resolver ℕ
shadowed_a =
    speculative ((codes "a", 101) ∷ [])
      (scope ((codes "a", 1) ∷ []) (standard [] ((codes "a", 2) ∷ (codes "b", 3) ∷ [])))

resolved_a : resolve 9 variable (codes "a") nested ≡ some (101, shadowed_a)
unfolding resolve get put eq_text
resolved_a = refl

names_once : suggestions 9 variable shadowed_a ≡ codes "a" ∷ codes "b" ∷ []
unfolding suggestions keys distinct_from holds eq_text
names_once = refl

no_such_value : resolve 9 variable (codes "c") nested ≡ none
unfolding resolve get put eq_text
no_such_value = refl

resolve-assign_example :
    resolve 9 variable (codes "b") (assign 9 variable (codes "b") 7 nested)
    ≡ some (7, assign 9 variable (codes "b") 7 nested)
resolve-assign_example = resolve-assign 9 variable (codes "b") 7 nested

resolve-value_example :
    (value 9 variable (codes "b") shadowed_a ≡ value 9 variable (codes "b") nested)
    × (value 9 variable (codes "a") shadowed_a ≡ some 101)
resolve-value_example =
    resolve-value 9 variable (codes "a") (codes "b") nested 101 shadowed_a resolved_a

abbrev choices : List Text
choices = codes "width" ∷ codes "id" ∷ codes "name" ∷ []

suggested : fuzzy_suggest (codes " id ") choices ≡ codes "id" ∷ codes "width" ∷ []
unfolding fuzzy_suggest sort_choices trim_start trim_end is_blank starts_with index_of
suggested = refl

fuzzy_suggest-holds_example :
    holds (codes "width") (fuzzy_suggest (codes " id ") choices)
    ≡ (holds (codes "width") choices && has_part (trim (codes " id ")) (codes "width"))
fuzzy_suggest-holds_example = fuzzy_suggest-holds (codes " id ") (codes "width") choices

suggestions-value_example :
    is_some (value 9 variable (codes "b") nested)
    ≡ (holds (codes "b") (suggestions 9 variable nested) || eq_text (codes "b") (codes "File"))
suggestions-value_example = suggestions-value 9 variable (codes "b") nested
