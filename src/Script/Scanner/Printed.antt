-- ===== src/Script/Scanner/Printed.antt =====
-- Completeness of `scanToken`: a text of a type of token, with a blank behind it, is scanned as one
-- token of that type. With the soundness in `Scanned` this is a round trip.
use mathlib.Core.Path.{subst}
use hydrui.Base.{
  ℕ, ◌+◌, ◌-◌, ◌≡◌, refl, ap, ◌∙◌, true, false, ◌||◌, Option, none, some, [], ◌∷◌, ◌++◌, Text,
  codes, All, length, take, arith, ◌==◌, eq_text, length-append, append_assoc,
}
use hydrui.Script.Token.{Token, TokenType, select, words, identifier, number, string}
use hydrui.Script.Scanner.{
  at, ok, is_letter, is_decimal, is_hex, is_ident, is_number, scan_ident, scan_number,
  scan_string_body, scan_string, scan_operator, scan_after_space, starts_number, or_identifier,
}
use hydrui.Script.Scanner.Reads.{Passes, skip_while-append}
use hydrui.Script.Scanner.Lexeme.{
  IsLexeme, IsEscaped, word, numeral, literal, truth, falsehood, spelled, done, plain, escape,
  spelling,
}
use hydrui.Script.Scanner.Scanned.{slice-Reads}

-- The token of `n` units at `p`.
abbrev pub token_at : TokenType → ℕ → ℕ → Token
token_at type p n = record { type = type; span = record { start = p; end = p + n } }

-- `xs` with a blank behind it is scanned as one token of this type.
abbrev pub Scans : TokenType → Text → Type 0
Scans type xs =
    (p : ℕ) (r : Text)
    → scan_after_space (at p (xs ++ 32 ∷ r))
      ≡ ok (some (token_at type p (length xs)), at (p + length xs) (32 ∷ r))

pub slice_prefix : (p : ℕ) (xs r : Text) → take (p + length xs - p) (xs ++ r) ≡ xs
slice_prefix p xs r =
    slice-Reads {s = at p (xs ++ r)} {t = at (p + length xs) r} xs
      (record { text = refl; position = refl })

is_ident-blank : is_ident (some 32) ≡ false
unfolding is_ident is_letter is_decimal
is_ident-blank = refl

is_number-blank : is_number (some 32) ≡ false
unfolding is_number is_decimal is_hex
is_number-blank = refl

-- An identifier or a keyword.
word-Scans :
    (c : ℕ) (xs : Text)
    → is_letter (some c) ≡ true
    → All (Passes is_ident) xs
    → Scans (or_identifier (select words (c ∷ xs))) (c ∷ xs)
unfolding scan_after_space scan_ident
word-Scans c xs l passes p r =
    let e : p + 1 + length xs ≡ p + length (c ∷ xs) = omega arith in
    rw
      (
        l,
        skip_while-append is_ident (p + 1) xs (32 ∷ r) passes is_ident-blank,
        e,
        slice_prefix p (c ∷ xs) (32 ∷ r),
      )
      refl

starts_number-blank :
    (p c : ℕ) (xs r : Text)
    → starts_number (at 0 (c ∷ xs)) ≡ true
    → starts_number (at p (c ∷ (xs ++ 32 ∷ r))) ≡ true
unfolding starts_number is_decimal
starts_number-blank p c [] r h = ground arith
starts_number-blank p c (x ∷ xs) r h = h

starts_number-kind :
    (c : ℕ) (xs : Text)
    → starts_number (at 0 (c ∷ xs)) ≡ true
    → (is_letter (some c) ≡ false) × (is_number (some c) || c == b'-' ≡ true)
unfolding starts_number is_decimal is_letter is_number is_hex
starts_number-kind c xs h = ground arith

numeral-Scans :
    (c : ℕ) (xs : Text)
    → starts_number (at 0 (c ∷ xs)) ≡ true
    → All (Passes is_number) xs
    → Scans number (c ∷ xs)
unfolding scan_after_space scan_number
numeral-Scans c xs n passes p r =
    let (no_letter, first) = starts_number-kind c xs n in
    let e : p + 1 + length xs ≡ p + length (c ∷ xs) = omega arith in
    rw
      (
        no_letter,
        starts_number-blank p c xs r n,
        first,
        skip_while-append is_number (p + 1) xs (32 ∷ r) passes is_number-blank,
        e,
      )
      refl

body-quote : (p : ℕ) (r : Text) → scan_string_body p (b'"' ∷ r) ≡ ok (at (p + 1) r)
unfolding scan_string_body
body-quote p [] = refl
body-quote p (d ∷ r) = refl

body-plain :
    (p c : ℕ) (r : Text)
    → (c == b'"') ≡ false
    → (c == b'\\') ≡ false
    → scan_string_body p (c ∷ r) ≡ scan_string_body (p + 1) r
unfolding scan_string_body
body-plain p c [] q b = rw q
body-plain p c (d ∷ r) q b = rw (q, b)

body-escape : (p c : ℕ) (r : Text) → scan_string_body p (b'\\' ∷ c ∷ r) ≡ scan_string_body (p + 2) r
unfolding scan_string_body
body-escape p c r = refl

ok-at : {p q : ℕ} (r : Text) → p ≡ q → ok (at p r) ≡ ok (at q r)
ok-at r e = ap (λ k. ok (at k r)) e

scan_string_body-append :
    (p : ℕ) (xs r : Text)
    → IsEscaped xs
    → scan_string_body p (xs ++ b'"' ∷ r) ≡ ok (at (p + length xs + 1) r)
scan_string_body-append p xs r done = body-quote p r ∙ ok-at r (omega arith)
scan_string_body-append p xs r (plain {xs = ys} c q b e) =
    body-plain p c (ys ++ b'"' ∷ r) q b
    ∙ scan_string_body-append (p + 1) ys r e
    ∙ ok-at r (omega arith)
scan_string_body-append p xs r (escape {xs = ys} c e) =
    body-escape p c (ys ++ b'"' ∷ r)
    ∙ scan_string_body-append (p + 2) ys r e
    ∙ ok-at r (omega arith)

literal-Scans : (xs : Text) → IsEscaped xs → Scans string (b'"' ∷ (xs ++ codes "\""))
unfolding scan_after_space scan_string is_letter starts_number is_decimal
literal-Scans xs e p r =
    let n : p + 1 + length xs + 1 ≡ p + length (b'"' ∷ (xs ++ codes "\"")) =
      omega (arith, length-append {0} xs (codes "\"")) in
    rw (append_assoc xs (codes "\"") (32 ∷ r), scan_string_body-append (p + 1) xs (32 ∷ r) e, n)
      refl

-- What the type of token promises of its one spelling, if it has one.
abbrev SpelledScans : TokenType → Option Text → Type 0
SpelledScans type none = Unit
SpelledScans type (some xs) = Scans type xs

-- A word that the table has.
abbrev IsWord : Text → Type 0
IsWord [] = ⊥
IsWord (c ∷ xs) = (is_letter (some c) ≡ true) × All (Passes is_ident) xs

table-Scans :
    (xs : Text) {type : TokenType} → select words xs ≡ some type → IsWord xs → Scans type xs
table-Scans [] e w = absurd w
table-Scans (c ∷ xs) {type} e (l, passes) =
    let found : or_identifier (select words (c ∷ xs)) ≡ type = rw e in
    rw (← found) (word-Scans c xs l passes)

spelling-Scans : (type : TokenType) → SpelledScans type (spelling type)
unfolding spelling select eq_text is_ident is_letter is_decimal scan_after_space scan_operator
    starts_number
spelling-Scans TokenType.boolean_keyword = table-Scans (codes "Boolean") refl (ground arith)
spelling-Scans TokenType.number_keyword = table-Scans (codes "Number") refl (ground arith)
spelling-Scans TokenType.string_keyword = table-Scans (codes "String") refl (ground arith)
spelling-Scans TokenType.let_keyword = table-Scans (codes "let") refl (ground arith)
spelling-Scans TokenType.return_keyword = table-Scans (codes "return") refl (ground arith)
spelling-Scans TokenType.function_keyword = table-Scans (codes "function") refl (ground arith)
spelling-Scans TokenType.lambda_keyword = table-Scans (codes "lambda") refl (ground arith)
spelling-Scans TokenType.if_keyword = table-Scans (codes "if") refl (ground arith)
spelling-Scans TokenType.else_keyword = table-Scans (codes "else") refl (ground arith)
spelling-Scans TokenType.for_keyword = table-Scans (codes "for") refl (ground arith)
spelling-Scans TokenType.while_keyword = table-Scans (codes "while") refl (ground arith)
spelling-Scans TokenType.break_keyword = table-Scans (codes "break") refl (ground arith)
spelling-Scans TokenType.continue_keyword = table-Scans (codes "continue") refl (ground arith)
spelling-Scans TokenType.null = table-Scans (codes "null") refl (ground arith)
spelling-Scans TokenType.identifier = tt
spelling-Scans TokenType.number = tt
spelling-Scans TokenType.boolean = tt
spelling-Scans TokenType.string = tt
spelling-Scans _ = λ p r. refl

-- Every text of every type of token, followed by a blank, is scanned as one token of that type,
-- from its first unit to behind its last one.
pub scan_after_space-append :
    (type : TokenType) (xs : Text)
    → IsLexeme type xs
    → (p : ℕ) (r : Text)
    → scan_after_space (at p (xs ++ 32 ∷ r))
      ≡ ok (some (token_at type p (length xs)), at (p + length xs) (32 ∷ r))
unfolding select eq_text is_ident is_letter is_decimal
scan_after_space-append type xs (word c ys l passes none_fits) =
    let plain_word : or_identifier (select words (c ∷ ys)) ≡ identifier = rw none_fits in
    rw (← plain_word) (word-Scans c ys l passes)
scan_after_space-append type xs (numeral c ys n passes) = numeral-Scans c ys n passes
scan_after_space-append type xs (literal ys e) = literal-Scans ys e
scan_after_space-append type xs truth = table-Scans (codes "true") refl (ground arith)
scan_after_space-append type xs falsehood = table-Scans (codes "false") refl (ground arith)
scan_after_space-append type xs (spelled ys e) = subst (SpelledScans type) e (spelling-Scans type)
