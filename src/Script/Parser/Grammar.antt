-- ===== src/Script/Parser/Grammar.antt =====
-- The statements of utils/script/parse.ts, and the parsers of a whole text.
use hydrui.Base.{ℕ, zero, suc, ◌+◌, Bool, true, false, Option, none, some, Text, length}
use hydrui.Script.Token.{Span, TokenType}
use hydrui.Script.Ast.{
  Node, Block, Statement, AssignOp, BinaryOp, no_node, a_node, no_statement, a_statement, block,
}
use hydrui.Script.Parser.{
  Parser, Parsers, ParseError, ParserState, Outcome, ok, failed, out_of_fuel, ◌>>=◌, ◌>>◌, pure,
  throw, when, position, accepted_span, accepted_text, token_type, same_type, expect, on, rounds,
  new_parser,
}
use hydrui.Script.Parser.Expr.{since, here, statements_part, expr_part}

module _ (source : Text) (allow_partial : Bool) (sub : Parsers) where
  -- A round of the loop of `parseStatementLeft`, which no caller gives a depth: it is 0. The `Bool`
  -- is `isCall`. No `)` and no `]` is read behind an argument or an index.
  unfoldable pub left_round :
      (Node → Bool → Parser (Node × Bool)) → Node → Bool → Parser (Node × Bool)
  left_round again n is_call =
      on source allow_partial TokenType.period
        (sub.expr 2 >>= λ b. again (Node.binary n BinaryOp.member b) is_call)
        (on source allow_partial TokenType.left_paren
          (on source allow_partial TokenType.right_paren
            (here >>= λ span. again (Node.binary n BinaryOp.call (Node.null span)) true)
            (sub.expr 1 >>= λ b. again (Node.binary n BinaryOp.call b) true))
          (on source allow_partial TokenType.left_bracket
            (sub.expr 1 >>= λ b. again (Node.binary n BinaryOp.subscript b) is_call)
            (pure (n, is_call))))

  unfoldable pub left_loop : ℕ → Node → Bool → Parser (Node × Bool)
  left_loop zero n is_call = throw ParseError.loop_limit
  left_loop (suc left) n is_call = left_round (left_loop left) n is_call

  -- `parseStatementLeft`
  unfoldable pub statement_left : Parser (Node × Bool)
  statement_left =
      on source allow_partial TokenType.identifier
        (accepted_span >>= λ span.
          accepted_text >>= λ name. left_loop rounds (Node.ident span name) false)
        (token_type >>= λ t. throw (ParseError.not_lvalue t))

  -- What follows the left side of an assignment.
  unfoldable pub assignment_tail : Node → Parser Statement
  assignment_tail a =
      (on source allow_partial TokenType.assign (assign AssignOp.assign) (
        on source allow_partial TokenType.add_assign (assign AssignOp.add_assign) (
          on source allow_partial TokenType.sub_assign (assign AssignOp.sub_assign) (
            on source allow_partial TokenType.mul_assign (assign AssignOp.mul_assign) (
              on source allow_partial TokenType.quo_assign (assign AssignOp.quo_assign) (
                on source allow_partial TokenType.rem_assign (assign AssignOp.rem_assign) (
                  on source allow_partial TokenType.and_assign (assign AssignOp.and_assign) (
                    on source allow_partial TokenType.or_assign (assign AssignOp.or_assign) (
                      on source allow_partial TokenType.xor_assign (assign AssignOp.xor_assign) (
                        on source allow_partial TokenType.shl_assign (assign AssignOp.shl_assign) (
                          on source allow_partial TokenType.shr_assign (assign AssignOp.shr_assign)
                            (on source allow_partial TokenType.and_not_assign
                              (assign AssignOp.and_not_assign)
                              (when allow_partial (pure (Statement.expression a)) (
                                token_type >>= λ t. throw (ParseError.no_assignment t)))))))))))))))
    where
      assign : AssignOp → Parser Statement
      assign op = sub.expr 0 >>= λ b. pure (Statement.assignment a op b)

  -- `parseAssignmentOrCall`
  unfoldable pub assignment_or_call : Parser Statement
  assignment_or_call = statement_left >>= λ (a, is_call).
      when is_call (pure (Statement.expression a)) (assignment_tail a)

  abbrev ends_declaration : Option TokenType → Bool
  ends_declaration none = true
  ends_declaration (some t) = same_type TokenType.semicolon (some t)

  abbrev up_to_accepted : ℕ → Parser Span
  up_to_accepted start = accepted_span >>= λ span. pure (record { start = start; end = span.start })

  -- `parseDeclOrAssignmentOrCall`
  unfoldable pub declaration : Parser Statement
  declaration =
      on source allow_partial TokenType.let_keyword
        (position >>= λ start.
          expect source allow_partial TokenType.identifier >> accepted_text >>= λ name.
          token_type >>= λ t.
          when (ends_declaration t)
            (up_to_accepted start >>= λ span. pure (Statement.let_variable span name no_node))
            (expect source allow_partial TokenType.assign >> sub.expr 0 >>= λ value.
              up_to_accepted start >>= λ span.
              pure (Statement.let_variable span name (a_node value))))
        assignment_or_call

  unfoldable pub return_tail : ℕ → Parser Statement
  return_tail start =
      on source allow_partial TokenType.semicolon
        (up_to_accepted start >>= λ span. pure (Statement.return_value span no_node))
        (sub.expr 0 >>= λ value.
          expect source allow_partial TokenType.semicolon >> up_to_accepted start >>= λ span.
          pure (Statement.return_value span (a_node value)))

  abbrev condition_part : Parser Node
  condition_part = expect source allow_partial TokenType.left_paren >> sub.expr 0 >>= λ condition.
      expect source allow_partial TokenType.right_paren >> pure condition

  unfoldable pub if_tail : ℕ → Parser Statement
  if_tail start = condition_part >>= λ condition. sub.statement >>= λ branch.
      on source allow_partial TokenType.else_keyword
        (sub.statement >>= λ alternative. since start >>= λ span.
          pure (Statement.conditional span condition branch (a_statement alternative)))
        (since start >>= λ span. pure (Statement.conditional span condition branch no_statement))

  -- A part of the head of a `for`, absent where its end comes at once.
  abbrev part_before {ℓ} : {A : Type ℓ} → TokenType → A → Parser A → Parser A
  part_before close absent p =
      on source allow_partial close (pure absent)
        (p >>= λ a. expect source allow_partial close >> pure a)

  unfoldable pub for_tail : ℕ → Parser Statement
  for_tail start =
      expect source allow_partial TokenType.left_paren
      >> part_before TokenType.semicolon no_statement (declaration >>= λ s. pure (a_statement s))
      >>= λ initializer.
          part_before TokenType.semicolon no_node (sub.expr 0 >>= λ n. pure (a_node n))
          >>= λ condition.
              part_before TokenType.right_paren no_statement
                (assignment_or_call >>= λ s. pure (a_statement s))
              >>= λ iterator. sub.statement >>= λ body. since start >>= λ span.
                  pure (Statement.for_loop span initializer condition iterator body)

  unfoldable pub while_tail : ℕ → Parser Statement
  while_tail start = condition_part >>= λ condition. sub.statement >>= λ body.
      since start >>= λ span. pure (Statement.while_loop span condition body)

  abbrev jump : ℕ → (Span → Statement) → Parser Statement
  jump start make =
      expect source allow_partial TokenType.semicolon >> up_to_accepted start >>= λ span.
      pure (make span)

  -- `parseStatementPart`, which no caller gives an order: it is 0.
  unfoldable pub statement_part : Parser Statement
  statement_part = position >>= λ start.
      on source allow_partial TokenType.left_brace
        (statements_part source allow_partial sub rounds >>= λ statements.
          expect source allow_partial TokenType.right_brace >> since start >>= λ span.
          pure (Statement.nested (block span statements)))
        (on source allow_partial TokenType.return_keyword (return_tail start) (
          on source allow_partial TokenType.break_keyword (jump start Statement.break_loop) (
            on source allow_partial TokenType.continue_keyword (jump start Statement.continue_loop)
              (on source allow_partial TokenType.if_keyword (if_tail start) (
                on source allow_partial TokenType.for_keyword (for_tail start) (
                  on source allow_partial TokenType.while_keyword (while_tail start) (
                    on source allow_partial TokenType.semicolon
                      (pure (Statement.empty (record { start = start; end = start })))
                      (declaration >>= λ s.
                        expect source allow_partial TokenType.semicolon >> pure s))))))))

-- A parser from the state that the constructor gives.
abbrev pub start_with {ℓ} :
    {A : Type ℓ} → Parser A → Outcome ParserState → Outcome (A × ParserState)
start_with parse (ok st) = parse st
start_with parse (failed e) = failed e
start_with parse out_of_fuel = out_of_fuel

module _ (source : Text) (allow_partial : Bool) where
  -- The parsers that may nest `fuel` levels deep.
  unfoldable pub parsers : ℕ → Parsers
  parsers zero = record { expr = λ depth st. out_of_fuel; statement = λ st. out_of_fuel }
  parsers (suc fuel) = record {
    expr = expr_part source allow_partial (parsers fuel);
    statement = statement_part source allow_partial (parsers fuel);
  }

  -- Every nested call follows a token that is accepted, so the units of the text bound the nesting.
  abbrev pub depth_of : ℕ
  depth_of = length source + 1

  -- The test for a token that is left, at the end of a parser of a whole text.
  unfoldable pub finish_at {ℓ} : {A : Type ℓ} → A → Option TokenType → Parser A
  finish_at a none = pure a
  finish_at a (some type) = throw (ParseError.unexpected_token (some type))

  unfoldable pub finish {ℓ} : {A : Type ℓ} → A → Parser A
  finish a = token_type >>= finish_at a

  -- `parseExpression`
  unfoldable pub parse_expression : ParserState → Outcome (Node × ParserState)
  parse_expression = (parsers depth_of).expr 0 >>= finish

  -- `parseScript`
  unfoldable pub parse_script : ParserState → Outcome (Block × ParserState)
  parse_script = position >>= λ start.
      statements_part source allow_partial (parsers depth_of) rounds >>= λ statements.
      finish statements >> since start >>= λ span. pure (block span statements)

  -- `new Parser(source, allowPartial).parseExpression()` and `….parseScript()`
  unfoldable pub expression_of : Outcome (Node × ParserState)
  expression_of = start_with parse_expression (new_parser source allow_partial)

  unfoldable pub script_of : Outcome (Block × ParserState)
  script_of = start_with parse_script (new_parser source allow_partial)
