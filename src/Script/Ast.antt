-- ===== src/Script/Ast.antt =====
-- The syntax trees of utils/script/ast.ts.
--
-- A number node holds the text that `Number(…)` is applied to. An optional part of a node is a value
-- of `MaybeNode` or `MaybeStatement`.
pub mod Source
use hydrui.Base.{ℕ, Bool, List, Text}
use hydrui.Script.Token.{Span}

pub data UnaryOp : Type 0 where
  plus negate not bit_not : UnaryOp

pub data BinaryOp : Type 0 where
  logical_or logical_and equal not_equal lesser lesser_equal greater greater_equal : BinaryOp
  add sub or xor mul div rem lsh rsh and and_not member call subscript group : BinaryOp

pub data AssignOp : Type 0 where
  assign add_assign sub_assign mul_assign quo_assign rem_assign and_assign or_assign : AssignOp
  xor_assign shl_assign shr_assign and_not_assign : AssignOp

pub data Keyword : Type 0 where
  boolean number string : Keyword

mutual
  pub data Node : Type 0 where
    placeholder : Span → Node
    ident : Span → Text → Node
    keyword : Span → Keyword → Node
    number : Span → Text → Node
    boolean : Span → Bool → Node
    string : Span → Text → Node
    null : Span → Node
    unary : Span → UnaryOp → Node → Node
    binary : Node → BinaryOp → Node → Node
    ternary : Node → Node → Node → Node
    lambda : Span → List Text → Node → Node
    function : Span → List Text → Block → Node

  pub data Block : Type 0 where
    block : Span → Statements → Block

  pub data Statement : Type 0 where
    expression : Node → Statement
    assignment : Node → AssignOp → Node → Statement
    let_variable : Span → Text → MaybeNode → Statement
    return_value : Span → MaybeNode → Statement
    break_loop : Span → Statement
    continue_loop : Span → Statement
    nested : Block → Statement
    conditional : Span → Node → Statement → MaybeStatement → Statement
    for_loop : Span → MaybeStatement → MaybeNode → MaybeStatement → Statement → Statement
    while_loop : Span → Node → Statement → Statement
    empty : Span → Statement

  pub data Statements : Type 0 where
    no_statements : Statements
    statement : Statement → Statements → Statements

  pub data MaybeNode : Type 0 where
    no_node : MaybeNode
    a_node : Node → MaybeNode

  pub data MaybeStatement : Type 0 where
    no_statement : MaybeStatement
    a_statement : Statement → MaybeStatement

abbrev pub span_from_to : Span → Span → Span
span_from_to a b = record { start = a.start; end = b.end }

-- `node.span`: of a binary or a ternary node, from its first operand to its last one.
unfoldable pub node_span : Node → Span
node_span (Node.placeholder s) = s
node_span (Node.ident s name) = s
node_span (Node.keyword s k) = s
node_span (Node.number s text) = s
node_span (Node.boolean s b) = s
node_span (Node.string s text) = s
node_span (Node.null s) = s
node_span (Node.unary s op a) = s
node_span (Node.binary a op b) = span_from_to (node_span a) (node_span b)
node_span (Node.ternary a b c) = span_from_to (node_span a) (node_span c)
node_span (Node.lambda s args e) = s
node_span (Node.function s args b) = s
