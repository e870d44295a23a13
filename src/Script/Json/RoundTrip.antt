-- ===== src/Script/Json/RoundTrip.antt =====
-- `JSON.parse` of what `JSON.stringify` gives for a string, and the token that it is.
use hydrui.Base.{
  ℕ, suc, ◌||◌, ◌+◌, ◌*◌, ◌/◌, ◌%◌, ◌<◌, ◌≡◌, refl, ap, ◌∙◌, true, false, Option, none, some, [],
  ◌∷◌, ◌++◌, Text, codes, All, append_assoc, append-nil, arith, Bool-cases, inl, inr, ltb, leb,
  ◌==◌, ◌&&◌,
}
use hydrui.Script.Json.{
  JsonState, give, json_step, json_body, json_parse, prepend, escaped, backslash, hex_unit,
  hex_digit, unicode, is_high, is_low, short_escape, quote_or, quote_unit, quote, json_stringify,
}
use hydrui.Script.Token.{string}
use hydrui.Script.Scanner.Lexeme.{IsEscaped, done, plain, escape, IsLexeme, literal}

-- How a unit is written.
data IsQuoted (c : ℕ) : Text → Type 0 where
  raw : (c == b'"') ≡ false → (c == b'\\') ≡ false → (ltb c 32) ≡ false → IsQuoted c (c ∷ [])
  short : (e : ℕ) → escaped e ≡ some c → IsQuoted c (backslash e)
  long : IsQuoted c (unicode c)

is_short : (c e : ℕ) → short_escape c ≡ some e → escaped e ≡ some c
is_short c e h = ground arith

quote_or-IsQuoted : (c : ℕ) (o : Option ℕ) → short_escape c ≡ o → IsQuoted c (quote_or c o)
quote_or-IsQuoted c (some e) h = short e (is_short c e h)
quote_or-IsQuoted c none h = elim (Bool-cases (ltb c 32 || (is_high c || is_low c))) [
  | inl e ↦ rw e long
  | inr e ↦ rw e (raw (ground arith) (ground arith) (ground arith))
]

hex_digit-hex_unit : (d : ℕ) → d < 16 → hex_digit (hex_unit d) ≡ some d
unfolding hex_unit
hex_digit-hex_unit d h = ground arith

unicode_value :
    (c : ℕ) → (((0 * 16 + c / 4096) * 16 + c / 256 % 16) * 16 + c / 16 % 16) * 16 + c % 16 ≡ c
unicode_value c = omega arith

json_step-raw :
    (c : ℕ)
    → (c == b'"') ≡ false
    → (c == b'\\') ≡ false
    → ltb c 32 ≡ false
    → json_step JsonState.plain c ≡ give c
unfolding json_step
json_step-raw c no_quote no_backslash no_control = rw (no_quote, no_backslash, no_control) refl

json_body-give :
    (c unit : ℕ) (r : Text)
    → json_step JsonState.plain c ≡ give unit
    → json_body JsonState.plain (c ∷ r) ≡ prepend unit (json_body JsonState.plain r)
unfolding json_body
json_body-give c unit r h = rw (json_body, h) refl

json_body-digit :
    (k value d : ℕ) (r : Text)
    → d < 16
    → json_body (JsonState.hex (suc k) value) (hex_unit d ∷ r)
      ≡ json_body (JsonState.hex k (value * 16 + d)) r
unfolding json_body json_step
json_body-digit k value d r h = rw (json_body, hex_digit-hex_unit d h) refl

json_body-last :
    (value d : ℕ) (r : Text)
    → d < 16
    → json_body (JsonState.hex 0 value) (hex_unit d ∷ r)
      ≡ prepend (value * 16 + d) (json_body JsonState.plain r)
unfolding json_body json_step
json_body-last value d r h = rw (json_body, hex_digit-hex_unit d h) refl

json_body-IsQuoted :
    (c : ℕ) {xs : Text} (r : Text)
    → c < 65536
    → IsQuoted c xs
    → json_body JsonState.plain (xs ++ r) ≡ prepend c (json_body JsonState.plain r)
unfolding json_body json_step
json_body-IsQuoted c r h (raw no_quote no_backslash no_control) =
    json_body-give c c r (json_step-raw c no_quote no_backslash no_control)
json_body-IsQuoted c r h (short e escapes) = rw (json_body, escapes) refl
json_body-IsQuoted c r h long =
    let one = hex_unit (c % 16) ∷ r in
    let two = hex_unit (c / 16 % 16) ∷ one in
    let three = hex_unit (c / 256 % 16) ∷ two in
    let value = 0 * 16 + c / 4096 in
    json_body-digit 2 0 (c / 4096) three (omega arith)
    ∙ (json_body-digit 1 value (c / 256 % 16) two (omega arith)
        ∙ (json_body-digit 0 (value * 16 + c / 256 % 16) (c / 16 % 16) one (omega arith)
            ∙ (json_body-last ((value * 16 + c / 256 % 16) * 16 + c / 16 % 16) (c % 16) r
                  (omega arith)
                ∙ ap (λ n. prepend n (json_body JsonState.plain r)) (unicode_value c))))

hex_unit-plain : (d : ℕ) {xs : Text} → IsEscaped xs → IsEscaped (hex_unit d ∷ xs)
unfolding hex_unit
hex_unit-plain d h = plain _ (ground arith) (ground arith) h

IsQuoted-IsEscaped : (c : ℕ) {xs ys : Text} → IsQuoted c xs → IsEscaped ys → IsEscaped (xs ++ ys)
IsQuoted-IsEscaped c (raw no_quote no_backslash no_control) h = plain c no_quote no_backslash h
IsQuoted-IsEscaped c (short e escapes) h = escape e h
IsQuoted-IsEscaped c long h = escape b'u' (
    hex_unit-plain (c / 4096)
      (hex_unit-plain (c / 256 % 16) (hex_unit-plain (c / 16 % 16) (hex_unit-plain (c % 16) h))))

quote_unit-IsQuoted : (c : ℕ) → IsQuoted c (quote_unit c)
unfolding quote_unit
quote_unit-IsQuoted c = quote_or-IsQuoted c (short_escape c) refl

-- A surrogate is no unit that has to be escaped.
surrogate : (c : ℕ) → leb 55296 c ≡ true → IsQuoted c (c ∷ [])
surrogate c h = raw (ground arith) (ground arith) (ground arith)

json_body-close : json_body JsonState.plain (codes "\"") ≡ some []
unfolding json_body json_step
json_body-close = refl

quote-IsEscaped : (t : Text) → IsEscaped (quote t)
unfolding quote
quote-IsEscaped [] = done
quote-IsEscaped (c ∷ []) = rw append-nil at (IsQuoted-IsEscaped c (quote_unit-IsQuoted c) done)
quote-IsEscaped (c ∷ d ∷ r) = elim (Bool-cases (is_high c && is_low d)) [
  | inl e ↦ rw e (
      IsQuoted-IsEscaped c (surrogate c (ground arith))
        (IsQuoted-IsEscaped d (surrogate d (ground arith)) (quote-IsEscaped r)))
  | inr e ↦ rw e (IsQuoted-IsEscaped c (quote_unit-IsQuoted c) (quote-IsEscaped (d ∷ r)))
]

abbrev pub Fits : ℕ → Type 0
Fits c = c < 65536

quote-read : (t : Text) → All Fits t → json_body JsonState.plain (quote t ++ codes "\"") ≡ some t
unfolding quote
quote-read [] h = json_body-close
quote-read (c ∷ []) h =
    json_body-IsQuoted c (codes "\"") h.0 (quote_unit-IsQuoted c) ∙ ap (prepend c) json_body-close
quote-read (c ∷ d ∷ r) h = elim (Bool-cases (is_high c && is_low d)) [
  | inl e ↦ rw e (
      json_body-IsQuoted c (d ∷ (quote r ++ codes "\"")) h.0 (surrogate c (ground arith))
      ∙ ap (prepend c) (
          json_body-IsQuoted d (quote r ++ codes "\"") h.1.0 (surrogate d (ground arith))
          ∙ ap (prepend d) (quote-read r h.1.1)))
  | inr e ↦
      rw (e, append_assoc)
        (json_body-IsQuoted c (quote (d ∷ r) ++ codes "\"") h.0 (quote_unit-IsQuoted c)
          ∙ ap (prepend c) (quote-read (d ∷ r) h.1))
]

-- What `JSON.stringify` gives for a string of 16-bit units is a text of a string token, and
-- `JSON.parse` gives the string back.
pub json_stringify-json_parse :
    (t : Text)
    → All Fits t
    → IsLexeme string (json_stringify t) × (json_parse (json_stringify t) ≡ some t)
unfolding json_stringify json_parse
json_stringify-json_parse t h = (literal (quote t) (quote-IsEscaped t), quote-read t h)
