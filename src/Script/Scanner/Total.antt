-- ===== src/Script/Scanner/Total.antt =====
-- Behind the white space and the comments, `scanToken` always ends.
use hydrui.Base.{
  ℕ, ◌+◌, ◌≡◌, inl, inr, Option, none, some, [], ◌∷◌, Text, Bool-cases, ◌==◌, ◌||◌, is_empty, drop,
  take,
}
use hydrui.Script.Token.{Token, TokenType, select, three_units, two_units, one_unit}
use hydrui.Script.Scanner.{
  Result, ok, failed, out_of_fuel, Scanner, peek, unit_is, is_letter, is_number, starts_number,
  accept, some_token, scan_ident, scan_number, scan_number_from, scan_string_body, scan_string,
  scan_operator, scan_after_space, ◌>>=◌, unhandled,
}

abbrev Stops {ℓ} : {A : Type ℓ} → Result A → Type 0
Stops (ok a) = Unit
Stops (failed p e) = Unit
Stops out_of_fuel = ⊥

pub Stops-ne {ℓ} : {A : Type ℓ} (r : Result A) → Stops r → ¬ (r ≡ out_of_fuel)
Stops-ne (ok a) h e = cc
Stops-ne (failed p x) h e = cc
Stops-ne out_of_fuel h e = h

some_token-Stops : (r : Result (Token × Scanner)) → Stops r → Stops (some_token r)
some_token-Stops (ok a) h = tt
some_token-Stops (failed p e) h = tt
some_token-Stops out_of_fuel h = h

accept-Stops :
    (n : ℕ) (s : Scanner) (o : Option TokenType) (r : Result (Token × Scanner))
    → Stops r
    → Stops (accept n s o r)
accept-Stops n s none r h = h
accept-Stops n s (some type) r h = tt

scan_ident-Stops : (s : Scanner) → Stops (scan_ident s)
unfolding scan_ident
scan_ident-Stops s = elim (Bool-cases (is_letter (peek s) || unit_is b'_' (peek s))) [
  | inl e ↦ rw e tt
  | inr e ↦ rw e tt
]

scan_number-Stops : (p : ℕ) (r : Text) → Stops (scan_number_from p r)
unfolding scan_number_from
scan_number-Stops p [] = tt
scan_number-Stops p (c ∷ r) = elim (Bool-cases (is_number (some c) || c == b'-')) [
  | inl e ↦ rw e tt
  | inr e ↦ rw e tt
]

scan_string_body-Stops : (p : ℕ) (r : Text) → Stops (scan_string_body p r)
unfolding scan_string_body
scan_string_body-Stops p [] = tt
scan_string_body-Stops p (c ∷ []) = elim (Bool-cases (c == b'"')) [
  | inl e ↦ rw e tt
  | inr e ↦ rw e tt
]
scan_string_body-Stops p (c ∷ d ∷ r) = elim (Bool-cases (c == b'"')) [
  | inl e ↦ rw e tt
  | inr e ↦ elim (Bool-cases (c == b'\\')) [
    | inl e₁ ↦ rw (e, e₁) (scan_string_body-Stops (p + 2) r)
    | inr e₁ ↦ rw (e, e₁) (scan_string_body-Stops (p + 1) (d ∷ r))
  ]
]

bind-Stops {ℓ κ} :
    {A : Type ℓ} {B : Type κ} (r : Result A) (f : A → Result B)
    → Stops r
    → ((a : A) → Stops (f a))
    → Stops (r >>= f)
bind-Stops (ok a) f h go = go a
bind-Stops (failed p e) f h go = tt
bind-Stops out_of_fuel f h go = h

scan_string-Stops : (s : Scanner) → Stops (scan_string s)
unfolding scan_string
scan_string-Stops s = elim (Bool-cases (unit_is b'"' (peek s))) [
  | inl e ↦ rw e (
      bind-Stops (scan_string_body (s.p + 1) (drop 1 s.rest)) _
        (scan_string_body-Stops (s.p + 1) (drop 1 s.rest)) (λ t. tt))
  | inr e ↦ rw e tt
]

scan_operator-Stops : (s : Scanner) → Stops (scan_operator s)
unfolding scan_operator
scan_operator-Stops s =
    let one = accept 1 s (select one_unit (take 1 s.rest)) (failed s.p (unhandled (peek s))) in
    let two = accept 2 s (select two_units (take 2 s.rest)) one in
    accept-Stops 3 s (select three_units (take 3 s.rest)) two (
      accept-Stops 2 s (select two_units (take 2 s.rest)) one
        (accept-Stops 1 s (select one_unit (take 1 s.rest)) (failed s.p (unhandled (peek s))) tt))

pub scan_after_space-Stops : (s : Scanner) → Stops (scan_after_space s)
unfolding scan_after_space scan_number
scan_after_space-Stops s = elim (Bool-cases (is_empty s.rest)) [
  | inl e ↦ rw e tt
  | inr e ↦ elim (Bool-cases (is_letter (peek s))) [
    | inl e₁ ↦ rw (e, e₁) (some_token-Stops (scan_ident s) (scan_ident-Stops s))
    | inr e₁ ↦ elim (Bool-cases (starts_number s)) [
      | inl e₂ ↦
          rw (e, e₁, e₂)
            (some_token-Stops (scan_number_from s.p s.rest) (scan_number-Stops s.p s.rest))
      | inr e₂ ↦ elim (Bool-cases (unit_is b'"' (peek s))) [
        | inl e₃ ↦ rw (e, e₁, e₂, e₃) (some_token-Stops (scan_string s) (scan_string-Stops s))
        | inr e₃ ↦ rw (e, e₁, e₂, e₃) (some_token-Stops (scan_operator s) (scan_operator-Stops s))
      ]
    ]
  ]
]

pub scan_after_space-ends : (s : Scanner) → ¬ (scan_after_space s ≡ out_of_fuel)
scan_after_space-ends s = Stops-ne (scan_after_space s) (scan_after_space-Stops s)
