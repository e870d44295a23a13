-- ===== src/Script/Parser/GrammarTotal.antt =====
-- The parsers of statements and of a whole text of utils/script/parse.ts, as total parsers.
use hydrui.Base.{ℕ, zero, suc, ◌+◌, Bool, Option, none, some, Text, arith, length}
use hydrui.Script.Token.{TokenType}
use hydrui.Script.Ast.{Node, Statement}
use hydrui.Script.Parser.{Parser, ◌>>=◌, Parsers}
use hydrui.Script.Parser.Grammar.{
  left_round, left_loop, statement_left, assignment_tail, assignment_or_call, declaration,
  return_tail, if_tail, for_tail, while_tail, statement_part, parsers, finish, finish_at,
  parse_expression, parse_script,
}
use hydrui.Script.Parser.Total.{IsTotal, bind-Total, IsTotal-le, totals, totals_below}
use hydrui.Script.Parser.ExprTotal.{here-Total, since-Total, statements_part-Total, expr_part-Total}

module _ (source : Text) (allow_partial : Bool) (sub : Parsers) (m : ℕ)
    (expr : (depth : ℕ) → IsTotal m (sub.expr depth)) (statement : IsTotal m sub.statement) where
  statement_then-Total {ℓ} :
      {A : Type ℓ} {f : Statement → Parser A}
      → ((s : Statement) → IsTotal m (f s))
      → IsTotal m (sub.statement >>= f)
  statement_then-Total go = bind-Total statement go

  left_round-Total :
      {again : Node → Bool → Parser (Node × Bool)} (n : Node) (is_call : Bool)
      → ((n : Node) (is_call : Bool) → IsTotal m (again n is_call))
      → IsTotal m (left_round source allow_partial sub again n is_call)
  unfolding left_round
  left_round-Total n is_call go = search (totals, expr, here-Total, go) depth 20

  left_loop-Total :
      (left : ℕ) (n : Node) (is_call : Bool)
      → IsTotal m (left_loop source allow_partial sub left n is_call)
  unfolding left_loop
  left_loop-Total zero n is_call = search totals
  left_loop-Total (suc left) n is_call = left_round-Total n is_call (left_loop-Total left)

  statement_left-Total : IsTotal (suc m) (statement_left source allow_partial sub)
  unfolding statement_left
  statement_left-Total = search (totals_below, left_loop-Total) depth 20

  assignment_tail-Total : (a : Node) → IsTotal (suc m) (assignment_tail source allow_partial sub a)
  unfolding assignment_tail
  assignment_tail-Total a = search (totals_below, expr) fits 5000 depth 60

  assignment_or_call-Total : IsTotal (suc m) (assignment_or_call source allow_partial sub)
  unfolding assignment_or_call
  assignment_or_call-Total =
      search (totals_below, statement_left-Total, assignment_tail-Total) depth 20

  declaration-Total : IsTotal (suc m) (declaration source allow_partial sub)
  unfolding declaration
  declaration-Total = search (totals_below, expr, assignment_or_call-Total) depth 20

  return_tail-Total : (start : ℕ) → IsTotal m (return_tail source allow_partial sub start)
  unfolding return_tail
  return_tail-Total start = search (totals, expr) depth 20

  if_tail-Total : (start : ℕ) → IsTotal m (if_tail source allow_partial sub start)
  unfolding if_tail
  if_tail-Total start = search (totals, expr, since-Total, statement_then-Total) depth 30

  declaration_then-Total {ℓ} :
      {A : Type ℓ} {f : Statement → Parser A}
      → ((s : Statement) → IsTotal m (f s))
      → IsTotal m (declaration source allow_partial sub >>= f)
  declaration_then-Total go = bind-Total (IsTotal-le m (omega arith) declaration-Total) go

  assignment_then-Total {ℓ} :
      {A : Type ℓ} {f : Statement → Parser A}
      → ((s : Statement) → IsTotal m (f s))
      → IsTotal m (assignment_or_call source allow_partial sub >>= f)
  assignment_then-Total go = bind-Total (IsTotal-le m (omega arith) assignment_or_call-Total) go

  for_tail-Total : (start : ℕ) → IsTotal m (for_tail source allow_partial sub start)
  unfolding for_tail
  for_tail-Total start =
      search
        (
          totals, expr, statement_then-Total, declaration_then-Total, assignment_then-Total,
          since-Total,
        )
        fits 5000 depth 60

  while_tail-Total : (start : ℕ) → IsTotal m (while_tail source allow_partial sub start)
  unfolding while_tail
  while_tail-Total start = search (totals, expr, since-Total, statement_then-Total) depth 30

  pub statement_part-Total : IsTotal (suc m) (statement_part source allow_partial sub)
  unfolding statement_part
  statement_part-Total =
      let statements = statements_part-Total source allow_partial sub m expr statement in
      search
        (
          totals_below, statements, since-Total, return_tail-Total, if_tail-Total, for_tail-Total,
          while_tail-Total, declaration-Total,
        )
        fits 5000 depth 60

module _ (source : Text) (allow_partial : Bool) where
  -- The fuel is more than the units that are left.
  pub parsers-Total :
      (fuel : ℕ)
      → ((depth : ℕ) → IsTotal fuel ((parsers source allow_partial fuel).expr depth))
        × IsTotal fuel (parsers source allow_partial fuel).statement
  unfolding parsers
  parsers-Total zero = (
    (λ depth. record { ends = λ s h. absurd (omega arith) }),
    record { ends = λ s h. absurd (omega arith) },
  )
  parsers-Total (suc fuel) =
      let (expr, statement) = parsers-Total fuel in
      let sub = parsers source allow_partial fuel in
      (
        expr_part-Total source allow_partial sub fuel expr statement,
        statement_part-Total source allow_partial sub fuel expr statement,
      )

  finish_at-Total {ℓ} :
      {m : ℕ} {A : Type ℓ} (a : A) (t : Option TokenType)
      → IsTotal m (finish_at source allow_partial a t)
  unfolding finish_at
  finish_at-Total a none = search totals
  finish_at-Total a (some type) = search totals

  finish-Total {ℓ} : {m : ℕ} {A : Type ℓ} (a : A) → IsTotal m (finish source allow_partial a)
  unfolding finish
  finish-Total a = search (totals, finish_at-Total)

  pub parse_expression-Total : IsTotal (length source + 1) (parse_expression source allow_partial)
  unfolding parse_expression
  parse_expression-Total = bind-Total ((parsers-Total (length source + 1)).0 0) finish-Total

  pub parse_script-Total : IsTotal (length source + 1) (parse_script source allow_partial)
  unfolding parse_script
  parse_script-Total =
      let (expr, statement) = parsers-Total (length source + 1) in
      let sub = parsers source allow_partial (length source + 1) in
      let statements =
        statements_part-Total source allow_partial sub (length source + 1) expr statement in
      search (totals, statements, finish-Total, since-Total) depth 20
