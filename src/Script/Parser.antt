-- ===== src/Script/Parser.antt =====
-- The class `Parser` of utils/script/parse.ts: its state, its errors, and what moves over the tokens.
-- The children have the grammar.
pub mod Expr
pub mod Grammar
pub mod Moves
pub mod Total
pub mod ExprTotal
pub mod GrammarTotal
pub mod Returns
pub mod Whole
pub mod Literals
use hydrui.Base.{
  ℕ, zero, suc, ◌+◌, ◌-◌, Bool, true, false, Option, none, some, [], Text, length, take, drop,
  if◌then◌else◌,
}
use hydrui.Script.Ast.{Node, Statement}
use hydrui.Script.Token.{Span, Token, TokenType, TokenType-eq}
use hydrui.Script.Scanner
use hydrui.Script.Scanner.{Scanner, at, LexError, scan, must_scan}

pub data ParseError : Type 0 where
  lexical : ℕ → LexError → ParseError
  advanced_past_end unexpected_end loop_limit no_expression : ParseError
  unexpected_binary unexpected_ternary not_json : ParseError
  unexpected_token : Option TokenType → ParseError
  expected_token : TokenType → TokenType → ℕ → ParseError
  not_lvalue no_assignment : Option TokenType → ParseError

pub data Outcome {ℓ} (A : Type ℓ) : Type ℓ where
  ok : A → Outcome A
  failed : ParseError → Outcome A
  out_of_fuel : Outcome A

pub record ParserState : Type 0 where
  pub scanner : Scanner
  pub token : Option Token
  pub accepted_span : Span
  pub accepted_text : Text
  pub p : ℕ

abbrev pub Parser {ℓ} : Type ℓ → Type ℓ
Parser A = ParserState → Outcome (A × ParserState)

module _ {ℓ κ} {A : Type ℓ} {B : Type κ} where
  abbrev pub then_do : Outcome (A × ParserState) → (A → Parser B) → Outcome (B × ParserState)
  then_do (ok (a, st)) f = f a st
  then_do (failed e) f = failed e
  then_do out_of_fuel f = out_of_fuel

  infixl 5 ◌>>=◌ ◌>>◌
  unfoldable pub ◌>>=◌ : Parser A → (A → Parser B) → Parser B
  p >>= f = λ st. then_do (p st) f

  abbrev pub ◌>>◌ : Parser A → Parser B → Parser B
  p >> q = p >>= λ _. q

module _ {ℓ} {A : Type ℓ} where
  unfoldable pub pure : A → Parser A
  pure a st = ok (a, st)

  unfoldable pub throw : ParseError → Parser A
  throw e st = failed e

  abbrev pub run : ParserState → Parser A → Outcome (A × ParserState)
  run st p = p st

  -- A branch runs only where it is taken.
  unfoldable pub when : Bool → Parser A → Parser A → Parser A
  when true p q st = p st
  when false p q st = q st

unfoldable pub position : Parser ℕ
position st = ok (st.p, st)

unfoldable pub accepted_span : Parser Span
accepted_span st = ok (st.accepted_span, st)

unfoldable pub accepted_text : Parser Text
accepted_text st = ok (st.accepted_text, st)

abbrev pub type_of : Option Token → Option TokenType
type_of none = none
type_of (some t) = some t.type

-- The type of the token in front, `none` behind the last one.
unfoldable pub token_type : Parser (Option TokenType)
token_type st = ok (type_of st.token, st)

abbrev pub same_type : TokenType → Option TokenType → Bool
same_type type none = false
same_type type (some t) = TokenType-eq t type

-- `scan` with enough fuel for what is left, unless a comment in it is never closed.
abbrev pub scan_rest : Scanner → Scanner.Result (Option Token × Scanner)
scan_rest s = scan (length s.rest + 1) s

abbrev pub lift {ℓ κ} : {A : Type ℓ} {B : Type κ} → Scanner.Result A → (A → Outcome B) → Outcome B
lift (Scanner.ok a) f = f a
lift (Scanner.failed p e) f = failed (lexical p e)
lift Scanner.out_of_fuel f = out_of_fuel

abbrev pub next_position : Option Token → ℕ → ℕ
next_position (some t) end = t.span.start
next_position none end = end

-- `advance`
unfoldable pub advance : Parser (Unit {0})
advance st = elim st.token [
  | none ↦ failed advanced_past_end
  | some t ↦ lift (scan_rest st.scanner) λ (token, scanner).
      ok (tt, record st { scanner = scanner; token = token; p = next_position token t.span.end })
]

abbrev pub start_state : Scanner → Option Token → ParserState
start_state scanner token = record {
  scanner = scanner;
  token = token;
  accepted_span = record { start = 0; end = 0 };
  accepted_text = [];
  p = 0;
}

module _ (source : Text) (allow_partial : Bool) where
  -- The constructor: a full parse wants a token.
  unfoldable pub new_parser : Outcome ParserState
  new_parser =
      if allow_partial
      then lift (scan_rest (at 0 source)) (λ (token, s). ok (start_state s token))
      else lift (must_scan (length source + 1) (at 0 source))
          (λ (token, s). ok (start_state s (some token)))

  abbrev pub slice : Span → Text
  slice span = take (span.end - span.start) (drop span.start source)

  abbrev pub take_token : Token → Parser (Unit {0})
  take_token t st = advance (record st { accepted_span = t.span; accepted_text = slice t.span })

  abbrev pub accept_token : TokenType → Option Token → Parser Bool
  accept_token type none st = ok (false, st)
  accept_token type (some t) st =
      when (TokenType-eq t.type type) (take_token t >> pure true) (pure false) st

  -- `accept`
  unfoldable pub accept : TokenType → Parser Bool
  accept type st = accept_token type st.token st

  -- In a partial parse, "just treat it as if the required token(s) were present".
  abbrev pub as_if_present : ParseError → Parser Bool
  as_if_present e st =
      if allow_partial
      then ok (
        false,
        record st { accepted_span = record { start = st.p; end = st.p }; accepted_text = [] },
      )
      else failed e

  abbrev pub expect_token : TokenType → Option Token → Parser Bool
  expect_token type none st = as_if_present unexpected_end st
  expect_token type (some t) st =
      when (TokenType-eq t.type type) (take_token t >> pure true)
        (as_if_present (expected_token t.type type st.p)) st

  -- `expect`
  unfoldable pub expect : TokenType → Parser Bool
  expect type st = expect_token type st.token st

  -- `if (this.accept(type)) { p } else { q }`
  unfoldable pub on {ℓ} : {A : Type ℓ} → TokenType → Parser A → Parser A → Parser A
  on type p q = accept type >>= λ accepted. when accepted p q

-- `LOOP_LIMIT`: the rounds of a loop before the one that throws. What a loop has left is counted down.
abbrev pub rounds : ℕ
rounds = 5001

-- The two functions that call each other, one level of nesting further in.
pub record Parsers : Type 0 where
  pub expr : ℕ → Parser Node
  pub statement : Parser Statement
