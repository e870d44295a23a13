-- ===== src/Script/Parser/ExprTotal.antt =====
-- The parsers of expressions of utils/script/parse.ts, as total parsers.
use hydrui.Base.{ℕ, zero, suc, Bool, Option, none, some, List, Text, arith, leb}
use hydrui.Script.Token.{Span, TokenType}
use hydrui.Script.Ast.{Statements, Node, MaybeNode, BinaryOp, a_node, no_node}
use hydrui.Script.Parser.{Parser, Parsers, rounds}
use hydrui.Script.Parser.Expr.{
  statements_round, lambda_args_round, function_args_round, statements_part, more_statements,
  block_part, function_args, function_tail, lambda_args, lambda_tail, primary, string_literal,
  binary, ternary, prefix, call, subscript, infix_part, expr_step, expr_loop, finish_expr,
  expr_part, here, since,
}
use hydrui.Script.Parser.Total.{
  IsTotal, bind-Total, pure-Total, when-Total, IsTotal-le, on-Total, totals, totals_below,
  token_type-Total, position-Total,
}

pub here-Total : {m : ℕ} → IsTotal m here
here-Total = search totals

pub since-Total : {m : ℕ} (start : ℕ) → IsTotal m (since start)
since-Total start = search totals

module _ (source : Text) (allow_partial : Bool) (sub : Parsers) (m : ℕ)
    (expr : (depth : ℕ) → IsTotal m (sub.expr depth)) (statement : IsTotal m sub.statement) where
  statements_round-Total :
      {again : Parser Statements}
      → IsTotal m again
      → IsTotal m (statements_round source allow_partial sub again)
  unfolding statements_round
  statements_round-Total again = bind-Total token_type-Total (λ t.
      when-Total (more_statements t)
        (bind-Total statement (λ s. bind-Total again (λ rest. pure-Total _))) (pure-Total _))

  pub statements_part-Total : (left : ℕ) → IsTotal m (statements_part source allow_partial sub left)
  unfolding statements_part
  statements_part-Total zero = search totals
  statements_part-Total (suc left) = statements_round-Total (statements_part-Total left)

  block_part-Total : IsTotal m (block_part source allow_partial sub)
  unfolding block_part
  block_part-Total = search (totals, statements_part-Total, since-Total)

  function_args_round-Total :
      {again : Parser (List Text)}
      → IsTotal m again
      → IsTotal m (function_args_round source allow_partial sub again)
  unfolding function_args_round
  function_args_round-Total again = search totals depth 20

  function_args-Total : (left : ℕ) → IsTotal m (function_args source allow_partial sub left)
  unfolding function_args
  function_args-Total zero = search totals
  function_args-Total (suc left) = function_args_round-Total (function_args-Total left)

  function_tail-Total : IsTotal m (function_tail source allow_partial sub)
  unfolding function_tail
  function_tail-Total = search (totals, function_args-Total, block_part-Total, since-Total) depth 20

  lambda_args_round-Total :
      {again : Parser (List Text)}
      → IsTotal m again
      → IsTotal m (lambda_args_round source allow_partial sub again)
  unfolding lambda_args_round
  lambda_args_round-Total again = search totals depth 20

  lambda_args-Total : (left : ℕ) → IsTotal m (lambda_args source allow_partial sub left)
  unfolding lambda_args
  lambda_args-Total zero = search totals
  lambda_args-Total (suc left) = lambda_args_round-Total (lambda_args-Total left)

  lambda_tail-Total : IsTotal m (lambda_tail source allow_partial sub)
  unfolding lambda_tail
  lambda_tail-Total = search (totals, lambda_args-Total, expr, since-Total) depth 20

  binary-Total :
      (n : MaybeNode) (op : BinaryOp) (depth : ℕ)
      → IsTotal m (binary source allow_partial sub n op depth)
  unfolding binary
  binary-Total no_node op depth = search totals
  binary-Total (a_node a) op depth = search (totals, expr)

  ternary-Total : (n : MaybeNode) (depth : ℕ) → IsTotal m (ternary source allow_partial sub n depth)
  unfolding ternary
  ternary-Total no_node depth = search totals
  ternary-Total (a_node a) depth = search (totals, expr) depth 20

  call-Total : (a : Node) → IsTotal m (call source allow_partial sub a)
  unfolding call
  call-Total a = search (totals, expr, here-Total) depth 20

  subscript-Total : (a : Node) → IsTotal m (subscript source allow_partial sub a)
  unfolding subscript
  subscript-Total a = search (totals, expr) depth 20

  string_literal-Total :
      (span : Span) (t : Option Text) → IsTotal m (string_literal source allow_partial sub span t)
  unfolding string_literal
  string_literal-Total span none = search totals
  string_literal-Total span (some text) = search totals

  -- What stands in front of the operators needs less than one unit more.
  primary-Total : IsTotal (suc m) (primary source allow_partial sub)
  unfolding primary
  primary-Total = search (totals_below, string_literal-Total, expr) depth 20

  prefix-Total :
      (start : ℕ) (n : MaybeNode) → IsTotal (suc m) (prefix source allow_partial sub start n)
  unfolding prefix
  prefix-Total start (a_node a) = search totals
  prefix-Total start no_node = search (totals_below, expr, since-Total) depth 20

  module _ (depth : ℕ) {again : Node → Parser MaybeNode}
      (go : (n : Node) → IsTotal m (again n)) where
    infix_part-Total :
        (n : MaybeNode) → IsTotal (suc m) (infix_part source allow_partial sub depth n again)
    unfolding infix_part
    infix_part-Total n = search (totals_below, binary-Total, ternary-Total, go) fits 5000 depth 60

    expr_step-Total :
        (start : ℕ) (n : MaybeNode)
        → IsTotal (suc m) (expr_step source allow_partial sub start depth n again)
    unfolding expr_step
    expr_step-Total start (a_node a) =
        search (totals_below, binary-Total, call-Total, subscript-Total, infix_part-Total, go) depth
          20
    expr_step-Total start no_node = search (totals, prefix-Total, infix_part-Total) depth 20

  expr_loop-Total :
      (left start depth : ℕ) (n : MaybeNode)
      → IsTotal (suc m) (expr_loop source allow_partial sub left start depth n)
  unfolding expr_loop
  expr_loop-Total zero start depth n = search totals
  expr_loop-Total (suc left) start depth n = when-Total (leb 8 depth) (pure-Total n) (
      expr_step-Total depth
        (λ a. IsTotal-le m (omega arith) (expr_loop-Total left start depth (a_node a))) start n)

  finish_expr-Total : (n : MaybeNode) → IsTotal (suc m) (finish_expr source allow_partial sub n)
  unfolding finish_expr
  finish_expr-Total (a_node a) = search totals
  finish_expr-Total no_node = search (totals, here-Total)

  pub expr_part-Total : (depth : ℕ) → IsTotal (suc m) (expr_part source allow_partial sub depth)
  unfolding expr_part
  expr_part-Total depth = bind-Total position-Total (λ start.
      on-Total source allow_partial m TokenType.function_keyword function_tail-Total (
        on-Total source allow_partial m TokenType.lambda_keyword lambda_tail-Total (
          bind-Total primary-Total
            (λ n. bind-Total (expr_loop-Total rounds start depth n) finish_expr-Total))))
