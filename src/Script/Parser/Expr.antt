-- ===== src/Script/Parser/Expr.antt =====
-- The expressions of utils/script/parse.ts: `parseExprPart`, and the tails of functions and lambdas.
use hydrui.Base.{
  ℕ, zero, suc, Bool, true, false, Option, none, some, List, [], ◌∷◌, Text, leb, if◌then◌else◌,
  is_empty,
}
use hydrui.Script.Token.{Span, TokenType}
use hydrui.Script.Ast.{
  Node, Block, Statements, MaybeNode, UnaryOp, BinaryOp, Keyword, no_node, a_node, no_statements,
  statement, block,
}
use hydrui.Script.Json.{json_parse}
use hydrui.Script.Parser.{
  Parser, Parsers, ParseError, ◌>>=◌, ◌>>◌, pure, throw, when, position, accepted_span,
  accepted_text, token_type, same_type, expect, on, rounds,
}

abbrev pub here : Parser Span
here = position >>= λ p. pure (record { start = p; end = p })

abbrev pub since : ℕ → Parser Span
since start = position >>= λ end. pure (record { start = start; end = end })

-- The loop condition of `parseStatementsPart`.
abbrev pub more_statements : Option TokenType → Bool
more_statements none = false
more_statements (some t) = if same_type TokenType.right_brace (some t) then false else true

module _ (source : Text) (allow_partial : Bool) (sub : Parsers) where
  -- A round of the loop of `parseStatementsPart`: `again` is what follows a statement.
  unfoldable pub statements_round : Parser Statements → Parser Statements
  statements_round again = token_type >>= λ t.
      when (more_statements t) (sub.statement >>= λ s. again >>= λ rest. pure (statement s rest))
        (pure no_statements)

  -- `parseStatementsPart`
  unfoldable pub statements_part : ℕ → Parser Statements
  statements_part zero = token_type >>= λ t.
      when (more_statements t) (throw ParseError.loop_limit) (pure no_statements)
  statements_part (suc left) = statements_round (statements_part left)

  -- `parseBlockPart`
  unfoldable pub block_part : Parser Block
  block_part = position >>= λ start.
      expect source allow_partial TokenType.left_brace >> statements_part rounds >>= λ statements.
      expect source allow_partial TokenType.right_brace >> since start >>= λ span.
      pure (block span statements)

  abbrev token_gone : Option TokenType → Bool
  token_gone none = allow_partial
  token_gone (some t) = false

  unfoldable pub function_args_round : Parser (List Text) → Parser (List Text)
  function_args_round again = token_type >>= λ t. when (token_gone t) (pure []) (
      expect source allow_partial TokenType.identifier >> accepted_text >>= λ name.
      on source allow_partial TokenType.right_paren (pure (name ∷ []))
        (expect source allow_partial TokenType.comma >> again >>= λ names. pure (name ∷ names)))

  -- The loop over the parameters of `parseFunctionExpressionTail`.
  unfoldable pub function_args : ℕ → Parser (List Text)
  function_args zero = throw ParseError.loop_limit
  function_args (suc left) = function_args_round (function_args left)

  -- `parseFunctionExpressionTail`
  unfoldable pub function_tail : Parser Node
  function_tail = position >>= λ start.
      expect source allow_partial TokenType.left_paren >>= λ opened.
      when opened (on source allow_partial TokenType.right_paren (pure []) (function_args rounds))
        (pure [])
      >>= λ args. block_part >>= λ body. since start >>= λ span. pure (Node.function span args body)

  unfoldable pub lambda_args_round : Parser (List Text) → Parser (List Text)
  lambda_args_round again = expect source allow_partial TokenType.identifier >>= λ named.
      when named
        (accepted_text >>= λ name. on source allow_partial TokenType.colon (pure (name ∷ [])) (
          expect source allow_partial TokenType.comma >>= λ more.
          when more (again >>= λ names. pure (name ∷ names)) (pure (name ∷ []))))
        (pure [])

  -- The loop over the parameters of `parseLambdaExpressionTail`.
  unfoldable pub lambda_args : ℕ → Parser (List Text)
  lambda_args zero = throw ParseError.loop_limit
  lambda_args (suc left) = lambda_args_round (lambda_args left)

  -- `parseLambdaExpressionTail`
  unfoldable pub lambda_tail : Parser Node
  lambda_tail = position >>= λ start. lambda_args rounds >>= λ args.
      sub.expr 0 >>= λ body. since start >>= λ span. pure (Node.lambda span args body)

  unfoldable pub string_literal : Span → Option Text → Parser MaybeNode
  string_literal span none = throw ParseError.not_json
  string_literal span (some text) = pure (a_node (Node.string span text))

  abbrev keyword_node : Keyword → Parser MaybeNode
  keyword_node k = accepted_span >>= λ span. pure (a_node (Node.keyword span k))

  -- What the first token of an expression gives. `Boolean(text)` is true of a text with units.
  unfoldable pub primary : Parser MaybeNode
  primary =
      on source allow_partial TokenType.identifier
        (accepted_span >>= λ span. accepted_text >>= λ name. pure (a_node (Node.ident span name)))
        (on source allow_partial TokenType.boolean_keyword (keyword_node Keyword.boolean) (
          on source allow_partial TokenType.number_keyword (keyword_node Keyword.number) (
            on source allow_partial TokenType.string_keyword (keyword_node Keyword.string) (
              on source allow_partial TokenType.number
                (accepted_span >>= λ span.
                  accepted_text >>= λ t. pure (a_node (Node.number span t)))
                (on source allow_partial TokenType.boolean
                  (accepted_span >>= λ span. accepted_text >>= λ t.
                    pure (a_node (Node.boolean span (if is_empty t then false else true))))
                  (on source allow_partial TokenType.string
                    (accepted_span >>= λ span.
                      accepted_text >>= λ t. string_literal span (json_parse t))
                    (on source allow_partial TokenType.null
                      (accepted_span >>= λ span. pure (a_node (Node.null span)))
                      (on source allow_partial TokenType.left_paren
                        (sub.expr 1 >>= λ n.
                          expect source allow_partial TokenType.right_paren >> pure (a_node n))
                        (pure no_node)))))))))

  -- `binary`
  unfoldable pub binary : MaybeNode → BinaryOp → ℕ → Parser Node
  binary no_node op depth = throw ParseError.unexpected_binary
  binary (a_node a) op depth = sub.expr depth >>= λ b. pure (Node.binary a op b)

  -- `ternary`
  unfoldable pub ternary : MaybeNode → ℕ → Parser Node
  ternary no_node depth = throw ParseError.unexpected_ternary
  ternary (a_node a) depth = sub.expr depth >>= λ b.
      expect source allow_partial TokenType.colon >> sub.expr depth >>= λ c.
      pure (Node.ternary a b c)

  -- `unary`, and the node there is where no prefix operator comes.
  unfoldable pub prefix : ℕ → MaybeNode → Parser MaybeNode
  prefix start (a_node a) = pure (a_node a)
  prefix start no_node = on source allow_partial TokenType.add (unary UnaryOp.plus) (
      on source allow_partial TokenType.sub (unary UnaryOp.negate) (
        on source allow_partial TokenType.not (unary UnaryOp.not)
          (on source allow_partial TokenType.xor (unary UnaryOp.bit_not) (pure no_node))))
    where
      unary : UnaryOp → Parser MaybeNode
      unary op = sub.expr 7 >>= λ a. since start >>= λ span. pure (a_node (Node.unary span op a))

  -- A call, whose `(` is accepted.
  unfoldable pub call : Node → Parser Node
  call a =
      on source allow_partial TokenType.right_paren
        (here >>= λ span. pure (Node.binary a BinaryOp.call (Node.null span)))
        (sub.expr 1 >>= λ b.
          expect source allow_partial TokenType.right_paren >> pure (Node.binary a BinaryOp.call b))

  unfoldable pub subscript : Node → Parser Node
  subscript a = sub.expr 1 >>= λ b.
      expect source allow_partial TokenType.right_bracket
      >> pure (Node.binary a BinaryOp.subscript b)

  -- The operators behind an operand, in the order of the loop's tests, and the `break` before each
  -- level that `depth` reaches.
  unfoldable pub infix_part : ℕ → MaybeNode → (Node → Parser MaybeNode) → Parser MaybeNode
  infix_part depth n again =
      (when (leb 7 depth) (pure n) (
        on source allow_partial TokenType.mul (binary n BinaryOp.mul 7 >>= again) (
          on source allow_partial TokenType.quo (binary n BinaryOp.div 7 >>= again) (
            on source allow_partial TokenType.rem (binary n BinaryOp.rem 7 >>= again) (
              on source allow_partial TokenType.shl (binary n BinaryOp.lsh 7 >>= again) (
                on source allow_partial TokenType.shr (binary n BinaryOp.rsh 7 >>= again) (
                  on source allow_partial TokenType.and (binary n BinaryOp.and 7 >>= again) (
                    when (leb 6 depth) (pure n) (
                      on source allow_partial TokenType.add (binary n BinaryOp.add 6 >>= again) (
                        on source allow_partial TokenType.sub (binary n BinaryOp.sub 6 >>= again) (
                          on source allow_partial TokenType.or (binary n BinaryOp.or 6 >>= again) (
                            on source allow_partial TokenType.xor
                              (binary n BinaryOp.xor 6 >>= again)
                              (when (leb 5 depth) (pure n) (
                                on source allow_partial TokenType.equal
                                  (binary n BinaryOp.equal 5 >>= again)
                                  (on source allow_partial TokenType.not_equal
                                    (binary n BinaryOp.not_equal 5 >>= again)
                                    (on source allow_partial TokenType.lesser
                                      (binary n BinaryOp.lesser 5 >>= again)
                                      (on source allow_partial TokenType.lesser_equal
                                        (binary n BinaryOp.lesser_equal 5 >>= again)
                                        (on source allow_partial TokenType.greater
                                          (binary n BinaryOp.greater 5 >>= again)
                                          (on source allow_partial TokenType.greater_equal
                                            (binary n BinaryOp.greater_equal 5 >>= again)
                                            (when (leb 4 depth) (pure n) (
                                              on source allow_partial TokenType.logical_and
                                                (binary n BinaryOp.logical_and 4 >>= again)
                                                (when (leb 3 depth) (pure n) (
                                                  on source allow_partial TokenType.logical_or
                                                    (binary n BinaryOp.logical_or 3 >>= again)
                                                    (on source allow_partial TokenType.ternary
                                                      (ternary n 3 >>= again)
                                                      (when (leb 2 depth) (pure n) (
                                                        on source allow_partial TokenType.comma
                                                          (binary n BinaryOp.group 2 >>= again)
                                                          (pure n)))))))))))))))))))))))))))

  -- One round of the loop of `parseExprPart`: `again` is what follows a `continue`.
  unfoldable pub expr_step : ℕ → ℕ → MaybeNode → (Node → Parser MaybeNode) → Parser MaybeNode
  expr_step start depth (a_node a) again =
      on source allow_partial TokenType.period (binary (a_node a) BinaryOp.member 8 >>= again) (
        on source allow_partial TokenType.left_paren (call a >>= again) (
          on source allow_partial TokenType.left_bracket (subscript a >>= again)
            (infix_part depth (a_node a) again)))
  expr_step start depth no_node again = prefix start no_node >>= λ n. infix_part depth n again

  unfoldable pub expr_loop : ℕ → ℕ → ℕ → MaybeNode → Parser MaybeNode
  expr_loop zero start depth n = throw ParseError.loop_limit
  expr_loop (suc left) start depth n =
      when (leb 8 depth) (pure n)
        (expr_step start depth n (λ a. expr_loop left start depth (a_node a)))

  unfoldable pub finish_expr : MaybeNode → Parser Node
  finish_expr (a_node a) = pure a
  finish_expr no_node =
      when allow_partial (here >>= λ span. pure (Node.placeholder span))
        (throw ParseError.no_expression)

  -- `parseExprPart`
  unfoldable pub expr_part : ℕ → Parser Node
  expr_part depth = position >>= λ start.
      on source allow_partial TokenType.function_keyword function_tail (
        on source allow_partial TokenType.lambda_keyword lambda_tail
          (primary >>= λ n. expr_loop rounds start depth n >>= finish_expr))
