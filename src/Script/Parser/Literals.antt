-- ===== src/Script/Parser/Literals.antt =====
-- A string literal: the text of its node, the token that the scanner takes it for, and the node that the
-- parser makes of the token.
use hydrui.Base.{◌≡◌, refl, Bool, Option, some, Text, All}
use hydrui.Script.Token.{Span, Token, TokenType, TokenType-eq}
use hydrui.Script.Ast.{Node, a_node}
use hydrui.Script.Ast.Source.{source}
use hydrui.Script.Json.{json_stringify}
use hydrui.Script.Json.RoundTrip.{Fits, json_stringify-json_parse}
use hydrui.Script.Scanner
use hydrui.Script.Scanner.{Scanner}
use hydrui.Script.Scanner.Lexeme.{IsLexeme}
use hydrui.Script.Parser.{
  Parsers, ParserState, ok, pure, slice, scan_rest, next_position, accept, on, when, advance, ◌>>=◌,
  accepted_span, accepted_text,
}
use hydrui.Script.Parser.Expr.{string_literal, primary}

-- The state with a string token at this place in front.
abbrev pub string_at : Span → ParserState → ParserState
string_at read st = record st { token = some (record { type = TokenType.string; span = read }) }

module _ (number_text : Text → Text) (program : Text) (allow_partial : Bool) (sub : Parsers) where
  -- The source of a string node is a text of a string token; and where the parser has a string token in front
  -- whose text in the program is that source, and the token behind it can be scanned, `primary` takes the token
  -- and makes a node of the same string, for strings of 16-bit units.
  pub primary-source :
      (written read : Span) (t : Text) (st : ParserState) (ahead : Option Token) (s : Scanner)
      → All Fits t
      → slice program allow_partial read ≡ source number_text (Node.string written t)
      → scan_rest st.scanner ≡ Scanner.ok (ahead, s)
      → IsLexeme TokenType.string (source number_text (Node.string written t))
        × (primary program allow_partial sub (string_at read st)
            ≡ ok (
              a_node (Node.string read t),
              record st {
                scanner = s;
                token = ahead;
                accepted_span = read;
                accepted_text = source number_text (Node.string written t);
                p = next_position ahead read.end;
              },
            ))
  unfolding source string_literal pure primary on accept when advance ◌>>=◌ accepted_span
      accepted_text TokenType-eq json_stringify
  primary-source written read t st ahead s fits here scanned =
      let (lexeme, parsed) = json_stringify-json_parse t fits in
      (lexeme, rw (scanned, here, parsed) refl)
