-- ===== src/Script/Parser/Returns.antt =====
-- What comes out of `parseExpression` and `parseScript` of utils/script/parse.ts.
use hydrui.Base.{
  ◌+◌, ◌<◌, ◌≡◌, refl, ◌⊎◌, inl, inr, Bool, true, false, Option, none, some, [], ◌++◌, Text, arith,
  length,
}
use hydrui.Script.Token.{Token, TokenType}
use hydrui.Script.Scanner
use hydrui.Script.Scanner.{Scanner, at, scan, must_scan, some_scanned, ◌>>=◌}
use hydrui.Script.Scanner.Trivia.{IsTrivia}
use hydrui.Script.Scanner.Lexeme.{IsLexeme}
use hydrui.Script.Scanner.Scan.{scan-Scanned, scan-none}
use hydrui.Script.Parser.{
  Parser, ParserState, ParseError, Outcome, ok, failed, out_of_fuel, new_parser, scan_rest, lift,
  start_state,
}
use hydrui.Script.Parser.Grammar.{
  parse_expression, parse_script, expression_of, script_of, start_with,
}
use hydrui.Script.Scanner.Ends.{IsUnclosed}
use hydrui.Script.Parser.Moves.{Moves, stay, next, HasUnclosed, open_here, behind_token, Ends, left}
use hydrui.Script.Parser.Total.{IsTotal, units_left-scan, scan_rest-out_of_fuel}
use hydrui.Script.Parser.GrammarTotal.{parse_expression-Total, parse_script-Total}

-- A text that is a sequence of tokens, with white space and closed comments around them.
pub data AreTokens : Text → Type 0 where
  end : {text : Text} → IsTrivia [] text → AreTokens text
  lexed :
      (trivia : Text) (type : TokenType) (lexeme rest : Text) {text : Text}
      → IsTrivia (lexeme ++ rest) trivia
      → IsLexeme type lexeme
      → AreTokens rest
      → text ≡ trivia ++ (lexeme ++ rest)
      → AreTokens text

-- The token of the state is the one in front in the text of the scanner `s`.
abbrev StartsAt : Scanner → ParserState → Type 0
StartsAt s st = scan_rest s ≡ Scanner.ok (st.token, st.scanner)

partial-StartsAt :
    (r : Scanner.Result (Option Token × Scanner)) {st : ParserState}
    → lift r (λ (token, s). ok (start_state s token)) ≡ ok st
    → r ≡ Scanner.ok (st.token, st.scanner)
partial-StartsAt (Scanner.ok (token, s)) h = cc
partial-StartsAt (Scanner.failed p e) h = cc
partial-StartsAt Scanner.out_of_fuel h = cc

full-StartsAt :
    (r : Scanner.Result (Option Token × Scanner)) {st : ParserState}
    → lift (r >>= some_scanned) (λ (token, s). ok (start_state s (some token))) ≡ ok st
    → r ≡ Scanner.ok (st.token, st.scanner)
full-StartsAt (Scanner.ok (some token, s)) h = cc
full-StartsAt (Scanner.ok (none, s)) h = cc
full-StartsAt (Scanner.failed p e) h = cc
full-StartsAt Scanner.out_of_fuel h = cc

pub new_parser-StartsAt :
    (source : Text) (allow_partial : Bool) {st : ParserState}
    → new_parser source allow_partial ≡ ok st
    → StartsAt (at 0 source) st
unfolding must_scan new_parser
new_parser-StartsAt source true h = partial-StartsAt (scan_rest (at 0 source)) h
new_parser-StartsAt source false h = full-StartsAt (scan_rest (at 0 source)) h

-- What the parser has moved over, to where no token is left.
Moves-AreTokens :
    (s : Scanner) {st t : ParserState}
    → StartsAt s st
    → Moves st t
    → t.token ≡ none
    → AreTokens s.rest
Moves-AreTokens s start (stay _ same) gone =
    end (scan-none (length s.rest + 1) s (rw (same, gone) at start))
Moves-AreTokens s {st} start (next a {t = v} here read rest) gone =
    let (trivia, u, reads, is_trivia, scanned) =
      scan-Scanned (length s.rest + 1) s {token = a} {t = st.scanner} (rw here at start) in
    lexed trivia a.type scanned.lexeme st.scanner.rest (rw (← scanned.reads.text) is_trivia)
      scanned.is_lexeme (Moves-AreTokens st.scanner read rest gone)
      (rw (reads.text, scanned.reads.text) refl)

-- The parser starts with no more units than the text has.
StartsAt-left :
    (source : Text) (st : ParserState) → StartsAt (at 0 source) st → left st < length source + 1
StartsAt-left source st start =
    omega (arith, units_left-scan (at 0 source) st.token st.scanner start)

-- A result or an error: the parser has returned. Else it has not, and its scanner comes to a comment that is never
-- closed.
abbrev pub Returns {ℓ} : {A : Type ℓ} → Text → Outcome A → Type ℓ
Returns {A = A} source o =
    ((a : A) × (o ≡ ok a))
    ⊎ (((e : ParseError) × (o ≡ failed e)) ⊎ ((o ≡ out_of_fuel) × HasUnclosed (at 0 source)))

module _ {ℓ} {A : Type ℓ} (source : Text) (parse : Parser A)
    (total : IsTotal (length source + 1) parse) where
  outcome-Returns :
      (st : ParserState) (o : Outcome (A × ParserState))
      → StartsAt (at 0 source) st
      → Ends st o
      → Returns source o
  outcome-Returns st (ok a) start h = inl (a, refl)
  outcome-Returns st (failed e) start h = inr (inl (e, refl))
  outcome-Returns st out_of_fuel start h = inr (inr (refl, behind_token st.token start h))

  start_with-Returns :
      (o : Outcome ParserState)
      → ((st : ParserState) → o ≡ ok st → StartsAt (at 0 source) st)
      → (o ≡ out_of_fuel → HasUnclosed (at 0 source))
      → Returns source (start_with parse o)
  start_with-Returns (ok st) start open_comment =
      outcome-Returns st (parse st) (start st refl)
        (total.ends st (StartsAt-left source st (start st refl)))
  start_with-Returns (failed e) start open_comment = inr (inl (e, refl))
  start_with-Returns out_of_fuel start open_comment = inr (inr (refl, open_comment refl))

  pub start_with-AreTokens :
      (o : Outcome ParserState) {a : A} {t : ParserState}
      → ((st : ParserState) → o ≡ ok st → StartsAt (at 0 source) st)
      → ((st : ParserState) → parse st ≡ ok (a, t) → t.token ≡ none)
      → start_with parse o ≡ ok (a, t)
      → AreTokens source
  start_with-AreTokens (ok st) start gone h =
      let ended = total.ends st (StartsAt-left source st (start st refl)) in
      let (moves, _) = rw h at ended in
      Moves-AreTokens (at 0 source) (start st refl) moves (gone st h)
  start_with-AreTokens (failed e) start gone h = cc
  start_with-AreTokens out_of_fuel start gone h = cc

partial-out_of_fuel :
    (s : Scanner) (r : Scanner.Result (Option Token × Scanner))
    → scan_rest s ≡ r
    → lift r (λ (ahead, t). ok (start_state t ahead)) ≡ out_of_fuel
    → IsUnclosed s.rest
partial-out_of_fuel s (Scanner.ok a) e h = cc
partial-out_of_fuel s (Scanner.failed p x) e h = cc
partial-out_of_fuel s Scanner.out_of_fuel e h = scan_rest-out_of_fuel s e

full-out_of_fuel :
    (s : Scanner) (r : Scanner.Result (Option Token × Scanner))
    → scan_rest s ≡ r
    → lift (r >>= some_scanned) (λ (ahead, t). ok (start_state t (some ahead))) ≡ out_of_fuel
    → IsUnclosed s.rest
full-out_of_fuel s (Scanner.ok (some a, t)) e h = cc
full-out_of_fuel s (Scanner.ok (none, t)) e h = cc
full-out_of_fuel s (Scanner.failed p x) e h = cc
full-out_of_fuel s Scanner.out_of_fuel e h = scan_rest-out_of_fuel s e

new_parser-out_of_fuel :
    (source : Text) (allow_partial : Bool)
    → new_parser source allow_partial ≡ out_of_fuel
    → HasUnclosed (at 0 source)
unfolding new_parser must_scan
new_parser-out_of_fuel source true h =
    open_here (partial-out_of_fuel (at 0 source) (scan_rest (at 0 source)) refl h)
new_parser-out_of_fuel source false h =
    open_here (full-out_of_fuel (at 0 source) (scan_rest (at 0 source)) refl h)

module _ (source : Text) (allow_partial : Bool) where
  -- `parseExpression` of any text returns a node or an error, in full and in partial mode, unless its scanner, going
  -- on from token to token, comes to a comment that is never closed.
  pub expression_of-Returns : Returns source (expression_of source allow_partial)
  unfolding expression_of
  expression_of-Returns =
      start_with-Returns source (parse_expression source allow_partial)
        (parse_expression-Total source allow_partial) (new_parser source allow_partial)
        (λ st h. new_parser-StartsAt source allow_partial h)
        (new_parser-out_of_fuel source allow_partial)

  -- `parseScript` of any text returns a block or an error, in full and in partial mode, unless its scanner, going
  -- on from token to token, comes to a comment that is never closed.
  pub script_of-Returns : Returns source (script_of source allow_partial)
  unfolding script_of
  script_of-Returns =
      start_with-Returns source (parse_script source allow_partial)
        (parse_script-Total source allow_partial) (new_parser source allow_partial)
        (λ st h. new_parser-StartsAt source allow_partial h)
        (new_parser-out_of_fuel source allow_partial)
