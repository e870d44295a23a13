-- ===== src/Script/ParserTests.antt =====
-- Runs of the parser of utils/script/parse.ts, and its theorems on them.
use hydrui.Base.{ℕ, ◌+◌, ◌≡◌, refl, false, none, [], ◌∷◌, Text, codes, eq_text, arith}
use hydrui.Script.Token.{Span, string, TokenType, TokenType-eq, select}
use hydrui.Script.Scanner
use hydrui.Script.Scanner.{
  at, must_scan, scan, skip_whitespace_and_comments, is_whitespace, scan_after_space, is_letter,
  scan_ident, scan_operator, scan_number, scan_number_from, is_decimal, is_hex, is_ident, is_number,
  skip_while, starts_number,
}
use hydrui.Script.Ast.{
  Node, Block, BinaryOp, AssignOp, Statement, block, statement, no_statements, a_node,
}
use hydrui.Script.Parser.{
  slice, start_state, scan_rest, ParserState, Parsers, ok, failed, out_of_fuel, ParseError,
  new_parser, position, on, accept, advance, expect, pure, throw, token_type, when, accepted_span,
  accepted_text, ◌>>=◌,
}
use hydrui.Script.Parser.Grammar.{
  expression_of, script_of, parse_expression, parse_script, parsers, finish, finish_at,
  statement_part, declaration, assignment_or_call, assignment_tail, statement_left, left_loop,
  left_round,
}
use hydrui.Script.Parser.Expr.{
  expr_part, primary, prefix, binary, call, expr_loop, expr_step, infix_part, finish_expr,
  statements_part, statements_round,
}
use hydrui.Script.Json.{json_stringify, quote, quote_unit, hex_unit}
use hydrui.Script.Ast.Source.{source}
use hydrui.Script.Scanner.Lexeme.{IsLexeme}
use hydrui.Script.Parser.Literals.{primary-source, string_at}
use hydrui.Script.Parser.Returns.{Returns, AreTokens, expression_of-Returns, script_of-Returns}
use hydrui.Script.Parser.Whole.{expression_of-AreTokens, script_of-AreTokens}

abbrev span : ℕ → ℕ → Span
span a b = record { start = a; end = b }

abbrev ident : ℕ → ℕ → Node
ident p c = Node.ident (span p (p + 1)) (c ∷ [])

-- The state behind the last token, which stands at `p`.
abbrev behind : ℕ → ℕ → ParserState
behind p c = record {
  scanner = at (p + 1) [];
  token = none;
  accepted_span = span p (p + 1);
  accepted_text = c ∷ [];
  p = p + 1;
}

abbrev precedence_source : Text
precedence_source = codes "a+b*c"

-- `*` binds tighter than `+`, whichever stands first.
abbrev precedence_tree : Node
precedence_tree =
    Node.binary (ident 0 b'a') BinaryOp.add (Node.binary (ident 2 b'b') BinaryOp.mul (ident 4 b'c'))

precedence_runs : expression_of precedence_source false ≡ ok (precedence_tree, behind 4 b'c')
unfolding expression_of new_parser must_scan scan skip_whitespace_and_comments is_whitespace eq_text
    scan_after_space is_letter scan_ident scan_operator scan_number scan_number_from is_decimal
    is_hex is_ident is_number skip_while starts_number TokenType-eq select parse_expression parsers
    expr_part position on accept advance expect pure throw token_type when accepted_span
    accepted_text ◌>>=◌ finish finish_at primary prefix binary call expr_loop expr_step infix_part
    finish_expr
precedence_runs = refl

expression_of-Returns_example : Returns precedence_source (expression_of precedence_source false)
expression_of-Returns_example = expression_of-Returns precedence_source false

expression_of-AreTokens_example : AreTokens precedence_source
expression_of-AreTokens_example = expression_of-AreTokens precedence_source false precedence_runs

-- A call as a statement: the `)` is never read, so the statement wants none and cannot have one.
call_refused :
    script_of (codes "f(1);") false
    ≡ failed (ParseError.expected_token TokenType.right_paren TokenType.semicolon 3)
unfolding script_of new_parser must_scan scan skip_whitespace_and_comments is_whitespace eq_text
    scan_after_space is_letter scan_ident scan_operator scan_number scan_number_from is_decimal
    is_hex is_ident is_number skip_while starts_number TokenType-eq select parse_script parsers
    expr_part position on accept advance expect pure throw token_type when accepted_span
    accepted_text ◌>>=◌ finish finish_at primary prefix binary call expr_loop expr_step infix_part
    finish_expr statements_part statements_round statement_part declaration assignment_or_call
    assignment_tail statement_left left_loop left_round
call_refused = refl

abbrev assignment_tree : Block
assignment_tree =
    block (span 0 4)
      (statement (Statement.assignment (ident 0 b'a') AssignOp.assign (ident 2 b'b')) no_statements)

assignment_runs : script_of (codes "a=b;") false ≡ ok (assignment_tree, behind 3 b';')
unfolding script_of new_parser must_scan scan skip_whitespace_and_comments is_whitespace eq_text
    scan_after_space is_letter scan_ident scan_operator scan_number scan_number_from is_decimal
    is_hex is_ident is_number skip_while starts_number TokenType-eq select parse_script parsers
    expr_part position on accept advance expect pure throw token_type when accepted_span
    accepted_text ◌>>=◌ finish finish_at primary prefix binary call expr_loop expr_step infix_part
    finish_expr statements_part statements_round statement_part declaration assignment_or_call
    assignment_tail statement_left left_loop left_round
assignment_runs = refl

script_of-Returns_example :
    Returns (codes "return \"http://x\";") (script_of (codes "return \"http://x\";") false)
script_of-Returns_example = script_of-Returns (codes "return \"http://x\";") false

script_of-AreTokens_example : AreTokens (codes "a=b;")
script_of-AreTokens_example = script_of-AreTokens (codes "a=b;") false assignment_runs

-- A tab, a quote, `a`, a lone surrogate.
abbrev odd_text : Text
odd_text = 9 ∷ b'"' ∷ b'a' ∷ 55357 ∷ []

odd_source : json_stringify odd_text ≡ codes "\"\\t\\\"a\\ud83d\""
unfolding json_stringify quote quote_unit hex_unit
odd_source = refl

abbrev no_parsers : Parsers
no_parsers = record { expr = λ depth st. out_of_fuel; statement = λ st. out_of_fuel }

abbrev odd_node : Node
odd_node = Node.string (span 0 0) odd_text

odd_sliced : slice (json_stringify odd_text) false (span 0 14) ≡ source (λ t. t) odd_node
unfolding json_stringify quote quote_unit hex_unit source
odd_sliced = refl

-- The literal is the whole program, and nothing stands behind it.
abbrev at_end : ParserState
at_end = start_state (at 14 []) none

at_end_scanned : scan_rest (at 14 []) ≡ Scanner.ok (none, at 14 [])
unfolding scan skip_whitespace_and_comments is_whitespace eq_text scan_after_space skip_while
at_end_scanned = refl

primary-source_example :
    IsLexeme string (source (λ t. t) odd_node)
    × (primary (json_stringify odd_text) false no_parsers (string_at (span 0 14) at_end)
        ≡ ok (
          a_node (Node.string (span 0 14) odd_text),
          record at_end {
            accepted_span = span 0 14;
            accepted_text = source (λ t. t) odd_node;
            p = 14;
          },
        ))
primary-source_example =
    primary-source (λ t. t) (json_stringify odd_text) false no_parsers (span 0 0) (span 0 14)
      odd_text at_end none (at 14 []) (omega arith, (omega arith, (omega arith, (omega arith, tt))))
      odd_sliced at_end_scanned
