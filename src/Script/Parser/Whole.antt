-- ===== src/Script/Parser/Whole.antt =====
-- The texts that `parseExpression` and `parseScript` of utils/script/parse.ts accept.
use hydrui.Base.{◌≡◌, refl, Bool, Option, none, some, Text}
use hydrui.Script.Token.{Token, TokenType}
use hydrui.Script.Ast.{Node, Block, block}
use hydrui.Script.Parser.{
  Parser, ParserState, Outcome, ok, failed, out_of_fuel, ◌>>=◌, ◌>>◌, pure, throw, position,
  token_type, type_of, then_do, rounds, new_parser,
}
use hydrui.Script.Parser.Expr.{since, statements_part}
use hydrui.Script.Parser.Grammar.{
  parse_expression, parse_script, expression_of, script_of, finish, finish_at, parsers, depth_of,
}
use hydrui.Script.Parser.GrammarTotal.{parse_expression-Total, parse_script-Total}
use hydrui.Script.Parser.Returns.{AreTokens, start_with-AreTokens, new_parser-StartsAt}

-- A chain of two parsers that ends well, taken apart at what the first one hands on.
record Handover {ℓ κ} {A : Type ℓ} {B : Type κ} (p : Parser A) (f : A → Parser B) (s : ParserState)
    (b : B) (t : ParserState) : Type (ℓ ⊔ κ) where
  value : A
  state : ParserState
  first : p s ≡ ok (value, state)
  second : f value state ≡ ok (b, t)

then_do-Handover {ℓ κ} :
    {A : Type ℓ} {B : Type κ} (p : Parser A) (f : A → Parser B) (s : ParserState)
    (o : Outcome (A × ParserState)) {b : B} {t : ParserState}
    → p s ≡ o
    → then_do o f ≡ ok (b, t)
    → Handover p f s b t
then_do-Handover p f s (ok (a, u)) e h = record { value = a; state = u; first = e; second = h }
then_do-Handover p f s (failed x) e h = cc
then_do-Handover p f s out_of_fuel e h = cc

bind-Handover {ℓ κ} :
    {A : Type ℓ} {B : Type κ} (p : Parser A) (f : A → Parser B) (s : ParserState) {b : B}
    {t : ParserState}
    → (p >>= f) s ≡ ok (b, t)
    → Handover p f s b t
unfolding ◌>>=◌
bind-Handover p f s h = then_do-Handover p f s (p s) refl h

no_type : (t : Option Token) → type_of t ≡ none → t ≡ none
no_type none h = refl
no_type (some x) h = cc

ok-state {ℓ} : {A : Type ℓ} (a b : A) (s t : ParserState) → pure a s ≡ ok (b, t) → s ≡ t
unfolding pure
ok-state a b s t h = cc

module _ (source : Text) (allow_partial : Bool) where
  finish_at-none {ℓ} :
      {A : Type ℓ} (a b : A) (st t : ParserState) (ahead : Option TokenType)
      → type_of st.token ≡ ahead
      → finish_at source allow_partial a ahead st ≡ ok (b, t)
      → type_of t.token ≡ none
  unfolding finish_at pure throw
  finish_at-none a b st t none e h = cc
  finish_at-none a b st t (some x) e h = cc

  finish-none {ℓ} :
      {A : Type ℓ} (a b : A) (st t : ParserState)
      → finish source allow_partial a st ≡ ok (b, t)
      → type_of t.token ≡ none
  unfolding finish token_type ◌>>=◌
  finish-none a b st t h = finish_at-none a b st t (type_of st.token) refl h

  parse_expression-none :
      {n : Node} {t : ParserState} (st : ParserState)
      → parse_expression source allow_partial st ≡ ok (n, t)
      → t.token ≡ none
  unfolding parse_expression
  parse_expression-none {n} {t} st h =
      let whole = parsers source allow_partial (depth_of source allow_partial) in
      let two = bind-Handover (whole.expr 0) (finish source allow_partial) st h in
      no_type t.token (finish-none two.value n two.state t two.second)

  -- A text that `parseExpression` accepts, in full or in partial mode, is a sequence of tokens from its first
  -- unit to its last, with nothing but white space and closed comments around them.
  pub expression_of-AreTokens :
      {n : Node} {t : ParserState}
      → expression_of source allow_partial ≡ ok (n, t)
      → AreTokens source
  unfolding expression_of
  expression_of-AreTokens h =
      start_with-AreTokens source (parse_expression source allow_partial)
        (parse_expression-Total source allow_partial) (new_parser source allow_partial)
        (λ st e. new_parser-StartsAt source allow_partial e) parse_expression-none h

  parse_script-none :
      {b : Block} {t : ParserState} (st : ParserState)
      → parse_script source allow_partial st ≡ ok (b, t)
      → t.token ≡ none
  unfolding parse_script position pure ◌>>=◌
  parse_script-none {b} {t} st h =
      let whole = parsers source allow_partial (depth_of source allow_partial) in
      let two =
        bind-Handover (statements_part source allow_partial whole rounds)
          (λ statements. finish source allow_partial statements >> since st.p >>= λ span.
            pure (block span statements))
          st h in
      let three =
        bind-Handover (finish source allow_partial two.value >> since st.p)
          (λ span. pure (block span two.value)) two.state two.second in
      let four =
        bind-Handover (finish source allow_partial two.value) (λ _. since st.p) two.state
          three.first in
      let gone : four.state.token ≡ none =
        no_type four.state.token
          (finish-none two.value four.value two.state four.state four.first) in
      let first_same : four.state ≡ three.state = ok-state _ _ _ _ four.second in
      let second_same : three.state ≡ t = ok-state _ _ _ _ three.second in
      rw (← second_same, ← first_same) gone

  -- A text that `parseScript` accepts, in full or in partial mode, is a sequence of tokens from its first unit
  -- to its last, with nothing but white space and closed comments around them.
  pub script_of-AreTokens :
      {b : Block} {t : ParserState} → script_of source allow_partial ≡ ok (b, t) → AreTokens source
  unfolding script_of
  script_of-AreTokens h =
      start_with-AreTokens source (parse_script source allow_partial)
        (parse_script-Total source allow_partial) (new_parser source allow_partial)
        (λ st e. new_parser-StartsAt source allow_partial e) parse_script-none h
