-- ===== src/Script/Token.antt =====
-- Tokens of the expression language: the enum `TokenType` of utils/script/lex.ts with the spelling
-- of each member, and the tables of the `switch` statements that recognise them.
use hydrui.Base.{
  Bool, ℕ, Option, none, some, List, [], ◌∷◌, ◌++◌, Text, codes, eq_text, if◌then◌else◌, ◌==◌,
}

-- utils/script/span.ts
pub record Span : Type 0 where
  pub start : ℕ
  pub end : ℕ

pub data TokenType : Type 0 where
  identifier number boolean string null : TokenType
  assign add_assign sub_assign mul_assign quo_assign rem_assign and_assign or_assign : TokenType
  xor_assign shl_assign shr_assign and_not_assign : TokenType
  add sub mul quo rem : TokenType
  and not or xor shl shr and_not : TokenType
  logical_and logical_or : TokenType
  equal lesser greater not_equal lesser_equal greater_equal : TokenType
  left_paren left_bracket left_brace comma period : TokenType
  right_paren right_bracket right_brace colon semicolon ternary : TokenType
  boolean_keyword number_keyword string_keyword let_keyword return_keyword : TokenType
  function_keyword lambda_keyword if_keyword else_keyword for_keyword while_keyword : TokenType
  break_keyword continue_keyword : TokenType

pub record Token : Type 0 where
  pub type : TokenType
  pub span : Span

-- A `switch` on a text: its labels with what each one returns, tried from the top.
abbrev pub Switch : Type 0
Switch = List (Text × TokenType)

unfoldable pub select : Switch → Text → Option TokenType
select [] t = none
select ((label, type) ∷ rest) t = if eq_text label t then some type else select rest t

-- The labels of `scanIdent`: the keywords, and the words for a value.
abbrev pub keywords : Switch
keywords =
    (codes "Boolean", boolean_keyword)
    ∷ (codes "Number", number_keyword)
    ∷ (codes "String", string_keyword)
    ∷ (codes "let", let_keyword)
    ∷ (codes "return", return_keyword)
    ∷ (codes "function", function_keyword)
    ∷ (codes "lambda", lambda_keyword)
    ∷ (codes "if", if_keyword)
    ∷ (codes "else", else_keyword)
    ∷ (codes "for", for_keyword)
    ∷ (codes "while", while_keyword)
    ∷ (codes "break", break_keyword)
    ∷ (codes "continue", continue_keyword)
    ∷ []

abbrev pub value_words : Switch
value_words = (codes "true", boolean) ∷ (codes "false", boolean) ∷ (codes "null", null) ∷ []

abbrev pub words : Switch
words = keywords ++ value_words

-- The three `switch` statements of `scanToken`, on `ccc`, `cc` and `c`.
abbrev pub three_units : Switch
three_units =
    (codes "<<=", shl_assign) ∷ (codes ">>=", shr_assign) ∷ (codes "&^=", and_not_assign) ∷ []

abbrev pub two_units : Switch
two_units =
    (codes "&&", logical_and)
    ∷ (codes "&^", and_not)
    ∷ (codes "||", logical_or)
    ∷ (codes "<=", lesser_equal)
    ∷ (codes "<<", shl)
    ∷ (codes ">=", greater_equal)
    ∷ (codes ">>", shr)
    ∷ (codes "==", equal)
    ∷ (codes "!=", not_equal)
    ∷ (codes "+=", add_assign)
    ∷ (codes "-=", sub_assign)
    ∷ (codes "*=", mul_assign)
    ∷ (codes "/=", quo_assign)
    ∷ (codes "%=", rem_assign)
    ∷ (codes "&=", and_assign)
    ∷ (codes "|=", or_assign)
    ∷ (codes "^=", xor_assign)
    ∷ []

abbrev pub one_unit : Switch
one_unit =
    (codes "=", assign)
    ∷ (codes "+", add)
    ∷ (codes "-", sub)
    ∷ (codes "*", mul)
    ∷ (codes "/", quo)
    ∷ (codes "%", rem)
    ∷ (codes "&", and)
    ∷ (codes "|", or)
    ∷ (codes "^", xor)
    ∷ (codes "<", lesser)
    ∷ (codes ">", greater)
    ∷ (codes "!", not)
    ∷ (codes "(", left_paren)
    ∷ (codes "[", left_bracket)
    ∷ (codes "{", left_brace)
    ∷ (codes ",", comma)
    ∷ (codes ".", period)
    ∷ (codes ")", right_paren)
    ∷ (codes "]", right_bracket)
    ∷ (codes "}", right_brace)
    ∷ (codes ":", colon)
    ∷ (codes ";", semicolon)
    ∷ (codes "?", ternary)
    ∷ []

-- Where the member stands in the enum.
unfoldable pub rank : TokenType → ℕ
rank identifier = 0
rank number = 1
rank boolean = 2
rank string = 3
rank null = 4
rank assign = 5
rank add_assign = 6
rank sub_assign = 7
rank mul_assign = 8
rank quo_assign = 9
rank rem_assign = 10
rank and_assign = 11
rank or_assign = 12
rank xor_assign = 13
rank shl_assign = 14
rank shr_assign = 15
rank and_not_assign = 16
rank add = 17
rank sub = 18
rank mul = 19
rank quo = 20
rank rem = 21
rank and = 22
rank not = 23
rank or = 24
rank xor = 25
rank shl = 26
rank shr = 27
rank and_not = 28
rank logical_and = 29
rank logical_or = 30
rank equal = 31
rank lesser = 32
rank greater = 33
rank not_equal = 34
rank lesser_equal = 35
rank greater_equal = 36
rank left_paren = 37
rank left_bracket = 38
rank left_brace = 39
rank comma = 40
rank period = 41
rank right_paren = 42
rank right_bracket = 43
rank right_brace = 44
rank colon = 45
rank semicolon = 46
rank ternary = 47
rank boolean_keyword = 48
rank number_keyword = 49
rank string_keyword = 50
rank let_keyword = 51
rank return_keyword = 52
rank function_keyword = 53
rank lambda_keyword = 54
rank if_keyword = 55
rank else_keyword = 56
rank for_keyword = 57
rank while_keyword = 58
rank break_keyword = 59
rank continue_keyword = 60

-- `===` on members of the enum, which no two share a rank.
unfoldable pub TokenType-eq : TokenType → TokenType → Bool
unfolding rank
TokenType-eq a b = rank a == rank b
