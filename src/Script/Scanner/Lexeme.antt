-- ===== src/Script/Scanner/Lexeme.antt =====
-- The texts that stand for each type of token, and the tables of the scanner held against them.
use hydrui.Base.{
  ℕ, ◌≡◌, refl, true, false, Option, none, some, [], ◌∷◌, ◌++◌, Text, codes, All, All-append, arith,
  Bool-cases, inl, inr, eq_text, eq_text→eq, ◌==◌,
}
use hydrui.Script.Token.{
  TokenType, Switch, select, words, keywords, value_words, three_units, two_units, one_unit,
  identifier, number, boolean, string,
}
use hydrui.Script.Scanner.{at, is_letter, is_ident, is_number, starts_number}
use hydrui.Script.Scanner.Reads.{Passes}

-- The one spelling of an operator or a keyword.
unfoldable pub spelling : TokenType → Option Text
spelling TokenType.assign = some (codes "=")
spelling TokenType.add_assign = some (codes "+=")
spelling TokenType.sub_assign = some (codes "-=")
spelling TokenType.mul_assign = some (codes "*=")
spelling TokenType.quo_assign = some (codes "/=")
spelling TokenType.rem_assign = some (codes "%=")
spelling TokenType.and_assign = some (codes "&=")
spelling TokenType.or_assign = some (codes "|=")
spelling TokenType.xor_assign = some (codes "^=")
spelling TokenType.shl_assign = some (codes "<<=")
spelling TokenType.shr_assign = some (codes ">>=")
spelling TokenType.and_not_assign = some (codes "&^=")
spelling TokenType.add = some (codes "+")
spelling TokenType.sub = some (codes "-")
spelling TokenType.mul = some (codes "*")
spelling TokenType.quo = some (codes "/")
spelling TokenType.rem = some (codes "%")
spelling TokenType.and = some (codes "&")
spelling TokenType.not = some (codes "!")
spelling TokenType.or = some (codes "|")
spelling TokenType.xor = some (codes "^")
spelling TokenType.shl = some (codes "<<")
spelling TokenType.shr = some (codes ">>")
spelling TokenType.and_not = some (codes "&^")
spelling TokenType.logical_and = some (codes "&&")
spelling TokenType.logical_or = some (codes "||")
spelling TokenType.equal = some (codes "==")
spelling TokenType.lesser = some (codes "<")
spelling TokenType.greater = some (codes ">")
spelling TokenType.not_equal = some (codes "!=")
spelling TokenType.lesser_equal = some (codes "<=")
spelling TokenType.greater_equal = some (codes ">=")
spelling TokenType.left_paren = some (codes "(")
spelling TokenType.left_bracket = some (codes "[")
spelling TokenType.left_brace = some (codes "{")
spelling TokenType.comma = some (codes ",")
spelling TokenType.period = some (codes ".")
spelling TokenType.right_paren = some (codes ")")
spelling TokenType.right_bracket = some (codes "]")
spelling TokenType.right_brace = some (codes "}")
spelling TokenType.colon = some (codes ":")
spelling TokenType.semicolon = some (codes ";")
spelling TokenType.ternary = some (codes "?")
spelling TokenType.boolean_keyword = some (codes "Boolean")
spelling TokenType.number_keyword = some (codes "Number")
spelling TokenType.string_keyword = some (codes "String")
spelling TokenType.let_keyword = some (codes "let")
spelling TokenType.return_keyword = some (codes "return")
spelling TokenType.function_keyword = some (codes "function")
spelling TokenType.lambda_keyword = some (codes "lambda")
spelling TokenType.if_keyword = some (codes "if")
spelling TokenType.else_keyword = some (codes "else")
spelling TokenType.for_keyword = some (codes "for")
spelling TokenType.while_keyword = some (codes "while")
spelling TokenType.break_keyword = some (codes "break")
spelling TokenType.continue_keyword = some (codes "continue")
spelling TokenType.null = some (codes "null")
spelling _ = none

-- The inside of a string literal: every quote and every backslash in it stands behind a backslash.
pub data IsEscaped : Text → Type 0 where
  done : IsEscaped []
  plain :
      {xs : Text} (c : ℕ)
      → (c == b'"') ≡ false
      → (c == b'\\') ≡ false
      → IsEscaped xs
      → IsEscaped (c ∷ xs)
  escape : {xs : Text} (c : ℕ) → IsEscaped xs → IsEscaped (b'\\' ∷ c ∷ xs)

-- `xs` is a text of a token of this type.
pub data IsLexeme : TokenType → Text → Type 0 where
  word :
      (c : ℕ) (xs : Text)
      → is_letter (some c) ≡ true
      → All (Passes is_ident) xs
      → select words (c ∷ xs) ≡ none
      → IsLexeme identifier (c ∷ xs)
  numeral :
      (c : ℕ) (xs : Text)
      → starts_number (at 0 (c ∷ xs)) ≡ true
      → All (Passes is_number) xs
      → IsLexeme number (c ∷ xs)
  literal : (xs : Text) → IsEscaped xs → IsLexeme string (b'"' ∷ (xs ++ codes "\""))
  truth : IsLexeme boolean (codes "true")
  falsehood : IsLexeme boolean (codes "false")
  spelled : {type : TokenType} (xs : Text) → spelling type ≡ some xs → IsLexeme type xs

-- A `switch` whose labels have a property returns only on texts that have it.
pub select-All :
    (P : TokenType → Text → Type 0) (sw : Switch) (t : Text) {type : TokenType}
    → All (λ (e : Text × TokenType). P e.1 e.0) sw
    → select sw t ≡ some type
    → P type t
unfolding select
select-All P [] t h e = cc
select-All P ((label, ty) ∷ rest) t {type} h e = elim (Bool-cases (eq_text label t)) [
  | inl same ↦
      let found : ty ≡ type = cc (rw same at e) in rw (← found, ← eq_text→eq label t same) h.0
  | inr other ↦ select-All P rest t h.1 (rw other at e)
]

-- Every label is the spelling of the type that it returns.
abbrev pub AreLexemes : Switch → Type 0
AreLexemes = All (λ (e : Text × TokenType). IsLexeme e.1 e.0)

abbrev pub AreSpelled : Switch → Type 0
AreSpelled = All (λ (e : Text × TokenType). spelling e.1 ≡ some e.0)

pub three_units-AreSpelled : AreSpelled three_units
unfolding spelling
three_units-AreSpelled = ground arith

pub two_units-AreSpelled : AreSpelled two_units
unfolding spelling
two_units-AreSpelled = ground arith

pub one_unit-AreSpelled : AreSpelled one_unit
unfolding spelling
one_unit-AreSpelled = ground arith

pub AreSpelled-AreLexemes : (sw : Switch) → AreSpelled sw → AreLexemes sw
AreSpelled-AreLexemes [] h = tt
AreSpelled-AreLexemes ((label, type) ∷ rest) h = (spelled label h.0, AreSpelled-AreLexemes rest h.1)

keywords-AreSpelled : AreSpelled keywords
unfolding spelling
keywords-AreSpelled = ground arith

pub words-AreLexemes : AreLexemes words
unfolding spelling
words-AreLexemes =
    All-append (λ (e : Text × TokenType). IsLexeme e.1 e.0) keywords value_words
      (AreSpelled-AreLexemes keywords keywords-AreSpelled)
      (truth, (falsehood, (spelled _ refl, tt)))
