-- ===== src/Script/Suggest.antt =====
-- `fuzzySuggest` of utils/script/suggest.ts.
use hydrui.Base.{
  ℕ, zero, suc, ◌≡◌, refl, ap, sym, ◌∙◌, Bool, true, false, ◌&&◌, ◌||◌, Option, none, some, List,
  [], ◌∷◌, ◌++◌, Text, eq_text, eq_text→eq, if◌then◌else◌, leb, ◌==◌, is_empty, Bool-cases, inl,
  inr,
}
use hydrui.Script.Resolver.{holds}

-- The white space and the line ends of the language, which `trim` takes off.
unfoldable pub is_blank : ℕ → Bool
is_blank c =
    (leb 9 c && leb c 13)
    || (c == 32)
    || (c == 160)
    || (c == 5760)
    || (leb 8192 c && leb c 8202)
    || (c == 8232)
    || (c == 8233)
    || (c == 8239)
    || (c == 8287)
    || (c == 12288)
    || (c == 65279)

unfoldable pub trim_start : Text → Text
unfolding is_blank
trim_start [] = []
trim_start (c ∷ r) = if is_blank c then trim_start r else c ∷ r

unfoldable pub trim_end : Text → Text
unfolding is_blank
trim_end [] = []
trim_end (c ∷ r) = let rest = trim_end r in if is_blank c && is_empty rest then [] else c ∷ rest

abbrev pub trim : Text → Text
trim t = trim_end (trim_start t)

unfoldable pub starts_with : Text → Text → Bool
starts_with [] t = true
starts_with (x ∷ xs) [] = false
starts_with (x ∷ xs) (c ∷ r) = (x == c) && starts_with xs r

abbrev one_further : Option ℕ → Option ℕ
one_further none = none
one_further (some i) = some (suc i)

-- `none` is the -1 of the source.
unfoldable pub index_of : Text → Text → Option ℕ
unfolding starts_with
index_of x [] = if starts_with x [] then some 0 else none
index_of x (c ∷ r) =
    let rest = one_further (index_of x r) in if starts_with x (c ∷ r) then some 0 else rest

abbrev pub above_zero : Option ℕ → Bool
above_zero none = false
above_zero (some zero) = false
above_zero (some (suc i)) = true

-- The loop: the choices that start with the input, and those that have it further in.
unfoldable pub sort_choices : Text → List Text → List Text × List Text
unfolding starts_with index_of
sort_choices x [] = ([], [])
sort_choices x (c ∷ cs) =
    let (starts, contains) = sort_choices x cs in
    if starts_with x c
    then (c ∷ starts, contains)
    else if above_zero (index_of x c)
    then (starts, c ∷ contains)
    else (starts, contains)

unfoldable pub fuzzy_suggest : Text → List Text → List Text
unfolding trim_start trim_end sort_choices
fuzzy_suggest input choices =
    let (starts, contains) = sort_choices (trim input) choices in
    if is_empty (trim input) then choices else starts ++ contains

-- The text has `x` at its start or further in.
unfoldable pub has_part : Text → Text → Bool
unfolding starts_with
has_part x [] = starts_with x []
has_part x (c ∷ r) = starts_with x (c ∷ r) || has_part x r

is_found : Option ℕ → Bool
is_found none = false
is_found (some i) = true

above_zero-one_further : (o : Option ℕ) → above_zero (one_further o) ≡ is_found o
unfolding is_found
above_zero-one_further none = refl
above_zero-one_further (some i) = refl

one_further-is_found : (o : Option ℕ) → is_found (one_further o) ≡ is_found o
unfolding is_found
one_further-is_found none = refl
one_further-is_found (some i) = refl

index_of-has_part : (x t : Text) → is_found (index_of x t) ≡ has_part x t
unfolding index_of has_part is_found
index_of-has_part x [] = elim (Bool-cases (starts_with x [])) [
  | inl e ↦ rw e refl
  | inr e ↦ rw e refl
]
index_of-has_part x (c ∷ r) = elim (Bool-cases (starts_with x (c ∷ r))) [
  | inl e ↦ rw e refl
  | inr e ↦ rw e (one_further-is_found (index_of x r) ∙ index_of-has_part x r)
]

-- A text that does not start with `x` has it, if at all, behind the first unit.
above_zero-has_part :
    (x t : Text) → starts_with x t ≡ false → above_zero (index_of x t) ≡ has_part x t
unfolding index_of has_part
above_zero-has_part x [] e = rw e refl
above_zero-has_part x (c ∷ r) e =
    rw e (above_zero-one_further (index_of x r) ∙ index_of-has_part x r)

starts_with-has_part : (x t : Text) → starts_with x t ≡ true → has_part x t ≡ true
unfolding has_part
starts_with-has_part x [] e = e
starts_with-has_part x (c ∷ r) e = rw e refl

holds-append : (d : Text) (xs ys : List Text) → holds d (xs ++ ys) ≡ (holds d xs || holds d ys)
unfolding holds
holds-append d [] ys = refl
holds-append d (x ∷ xs) ys = elim (Bool-cases (eq_text x d)) [
  | inl e ↦ rw e refl
  | inr e ↦ rw e (holds-append d xs ys)
]

or-true : (b : Bool) → (b || true) ≡ true
or-true true = refl
or-true false = refl

and-false : (b : Bool) → (b && false) ≡ false
and-false true = refl
and-false false = refl

and-true : (b : Bool) → (b && true) ≡ b
and-true true = refl
and-true false = refl

sort_choices-holds :
    (x d : Text) (cs : List Text)
    → (holds d (sort_choices x cs).0 || holds d (sort_choices x cs).1)
      ≡ (holds d cs && has_part x d)
unfolding sort_choices holds
sort_choices-holds x d [] = refl
sort_choices-holds x d (c ∷ cs) =
    let rest = sort_choices-holds x d cs in
    elim (Bool-cases (starts_with x c)) [
      | inl e ↦ elim (Bool-cases (eq_text c d)) [
        | inl same ↦ rw (e, same) (sym (part_of c d same (starts_with-has_part x c e)))
        | inr other ↦ rw (e, other) rest
      ]
      | inr e ↦ elim (Bool-cases (above_zero (index_of x c))) [
        | inl e₁ ↦ elim (Bool-cases (eq_text c d)) [
          | inl same ↦
              rw (e, e₁, same)
                (or-true (holds d (sort_choices x cs).0)
                  ∙ sym (part_of c d same (sym (above_zero-has_part x c e) ∙ e₁)))
          | inr other ↦ rw (e, e₁, other) rest
        ]
        | inr e₁ ↦ elim (Bool-cases (eq_text c d)) [
          | inl same ↦
              let none_of : has_part x d ≡ false =
                part_of c d same (sym (above_zero-has_part x c e) ∙ e₁) in
              rw (e, e₁, same) (rest ∙ (rw none_of (and-false (holds d cs))))
          | inr other ↦ rw (e, e₁, other) rest
        ]
      ]
    ]
  where
    part_of : (c d : Text) {b : Bool} → eq_text c d ≡ true → has_part x c ≡ b → has_part x d ≡ b
    part_of c d same h = ap (has_part x) (sym (eq_text→eq c d same)) ∙ h

-- The choices with the empty text in them are all of them.
nothing-has_part : (d : Text) → has_part [] d ≡ true
unfolding has_part starts_with
nothing-has_part [] = refl
nothing-has_part (c ∷ r) = refl

-- What is suggested are the choices that have the trimmed input in them, and no others.
pub fuzzy_suggest-holds :
    (input d : Text) (choices : List Text)
    → holds d (fuzzy_suggest input choices) ≡ (holds d choices && has_part (trim input) d)
unfolding fuzzy_suggest
fuzzy_suggest-holds input d choices = of_trimmed (trim input)
  where
    of_trimmed :
        (x : Text)
        → holds d (
            if is_empty x
            then choices
            else (sort_choices x choices).0 ++ (sort_choices x choices).1)
          ≡ (holds d choices && has_part x d)
    of_trimmed [] =
        sym (ap (λ b. holds d choices && b) (nothing-has_part d) ∙ and-true (holds d choices))
    of_trimmed (c ∷ r) =
        holds-append d (sort_choices (c ∷ r) choices).0 (sort_choices (c ∷ r) choices).1
        ∙ sort_choices-holds (c ∷ r) d choices
