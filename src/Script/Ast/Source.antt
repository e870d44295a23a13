-- ===== src/Script/Ast/Source.antt =====
-- The getters `source` of utils/script/ast.ts: a syntax tree as text.
use hydrui.Base.{Bool, true, false, List, [], ◌∷◌, ◌++◌, Text, codes, if◌then◌else◌, ◌==◌}
use hydrui.Script.Json.{json_stringify}
use hydrui.Script.Ast.{
  Node, Block, Statement, Statements, MaybeNode, MaybeStatement, UnaryOp, BinaryOp, AssignOp,
  Keyword,
}

-- The strings of the enums.
unfoldable pub unary_text : UnaryOp → Text
unary_text UnaryOp.plus = codes "+"
unary_text UnaryOp.negate = codes "-"
unary_text UnaryOp.not = codes "!"
unary_text UnaryOp.bit_not = codes "^"

unfoldable pub binary_text : BinaryOp → Text
binary_text BinaryOp.logical_or = codes "||"
binary_text BinaryOp.logical_and = codes "&&"
binary_text BinaryOp.equal = codes "=="
binary_text BinaryOp.not_equal = codes "!="
binary_text BinaryOp.lesser = codes "<"
binary_text BinaryOp.lesser_equal = codes "<="
binary_text BinaryOp.greater = codes ">"
binary_text BinaryOp.greater_equal = codes ">="
binary_text BinaryOp.add = codes "+"
binary_text BinaryOp.sub = codes "-"
binary_text BinaryOp.or = codes "|"
binary_text BinaryOp.xor = codes "^"
binary_text BinaryOp.mul = codes "*"
binary_text BinaryOp.div = codes "/"
binary_text BinaryOp.rem = codes "%"
binary_text BinaryOp.lsh = codes "<<"
binary_text BinaryOp.rsh = codes ">>"
binary_text BinaryOp.and = codes "&"
binary_text BinaryOp.and_not = codes "&^"
binary_text BinaryOp.member = codes "."
binary_text BinaryOp.call = codes "()"
binary_text BinaryOp.subscript = codes "[]"
binary_text BinaryOp.group = codes ","

unfoldable pub assign_text : AssignOp → Text
assign_text AssignOp.assign = codes "="
assign_text AssignOp.add_assign = codes "+="
assign_text AssignOp.sub_assign = codes "-="
assign_text AssignOp.mul_assign = codes "*="
assign_text AssignOp.quo_assign = codes "/="
assign_text AssignOp.rem_assign = codes "%="
assign_text AssignOp.and_assign = codes "&="
assign_text AssignOp.or_assign = codes "|="
assign_text AssignOp.xor_assign = codes "^="
assign_text AssignOp.shl_assign = codes "<<="
assign_text AssignOp.shr_assign = codes ">>="
assign_text AssignOp.and_not_assign = codes "&^="

unfoldable pub keyword_text : Keyword → Text
keyword_text Keyword.boolean = codes "Boolean"
keyword_text Keyword.number = codes "Number"
keyword_text Keyword.string = codes "String"

abbrev pub boolean_text : Bool → Text
boolean_text true = codes "true"
boolean_text false = codes "false"

-- `args.join(", ")`
unfoldable pub join_args : List Text → Text
join_args [] = []
join_args (a ∷ []) = a
join_args (a ∷ b ∷ r) = a ++ codes ", " ++ join_args (b ∷ r)

-- `endsWith("}")`
unfoldable pub ends_with_brace : Text → Bool
ends_with_brace [] = false
ends_with_brace (c ∷ []) = c == b'}'
ends_with_brace (c ∷ d ∷ r) = ends_with_brace (d ∷ r)

unfoldable pub with_semicolon : Text → Text
unfolding ends_with_brace
with_semicolon t = if ends_with_brace t then t else t ++ codes ";"

-- `source.split("\n").map((line) => "\t" + line).join("\n")`
unfoldable pub indent_rest : Text → Text
indent_rest [] = []
indent_rest (c ∷ r) = if c == 10 then 10 ∷ 9 ∷ indent_rest r else c ∷ indent_rest r

unfoldable pub indent : Text → Text
unfolding indent_rest
indent t = 9 ∷ indent_rest t

-- `${this.operandB}` of an object that has no `toString` of its own.
abbrev pub object_text : Text
object_text = codes "[object Object]"

unfoldable pub binary_source : BinaryOp → Text → Text → Text
binary_source BinaryOp.member a b = a ++ codes "." ++ b
binary_source BinaryOp.call a b = a ++ codes "(" ++ b ++ codes ")"
binary_source BinaryOp.subscript a b = a ++ codes "[" ++ b ++ codes "]"
binary_source BinaryOp.group a b = a ++ codes ", " ++ b
binary_source op a b = a ++ codes " " ++ binary_text op ++ codes " " ++ b

-- `number_text` is `Number(text).toString()`.
module _ (number_text : Text → Text) where
  unfoldable mutual
    pub source : Node → Text
    source (Node.placeholder s) = []
    source (Node.ident s name) = name
    source (Node.keyword s k) = keyword_text k
    source (Node.number s text) = number_text text
    source (Node.boolean s b) = boolean_text b
    source (Node.string s text) = json_stringify text
    source (Node.null s) = codes "null"
    source (Node.unary s op a) = unary_text op ++ source a
    source (Node.binary a op b) = binary_source op (source a) (source b)
    source (Node.ternary a b c) = source a ++ codes " ? " ++ object_text ++ codes " : " ++ source c
    source (Node.lambda s args e) = codes "lambda " ++ join_args args ++ codes ": " ++ source e
    source (Node.function s args b) =
        codes "function(" ++ join_args args ++ codes ") " ++ block_source b

    pub block_source : Block → Text
    block_source (Block.block s statements) =
        codes "{\n" ++ statements_source statements ++ codes "}"

    pub statements_source : Statements → Text
    statements_source Statements.no_statements = []
    statements_source (Statements.statement s rest) =
        with_semicolon (indent (statement_source s)) ++ codes "\n" ++ statements_source rest

    pub statement_source : Statement → Text
    statement_source (Statement.expression a) = source a
    statement_source (Statement.assignment a op b) =
        source a ++ codes " " ++ assign_text op ++ codes " " ++ source b
    statement_source (Statement.let_variable s name MaybeNode.no_node) = codes "let " ++ name
    statement_source (Statement.let_variable s name (MaybeNode.a_node a)) =
        codes "let " ++ name ++ codes " = " ++ source a
    statement_source (Statement.return_value s MaybeNode.no_node) = codes "return"
    statement_source (Statement.return_value s (MaybeNode.a_node a)) = codes "return " ++ source a
    statement_source (Statement.break_loop s) = codes "break"
    statement_source (Statement.continue_loop s) = codes "continue"
    statement_source (Statement.nested b) = block_source b
    statement_source (Statement.conditional s c branch MaybeStatement.no_statement) =
        codes "if (" ++ source c ++ codes ") " ++ statement_source branch
    statement_source (Statement.conditional s c branch (MaybeStatement.a_statement other)) =
        codes "if ("
        ++ source c
        ++ codes ") "
        ++ with_semicolon (statement_source branch)
        ++ codes " else "
        ++ statement_source other
    statement_source (Statement.for_loop s initializer condition iterator body) =
        codes "for ("
        ++ maybe_statement_source initializer
        ++ codes "; "
        ++ maybe_source condition
        ++ codes "; "
        ++ maybe_statement_source iterator
        ++ codes ") "
        ++ statement_source body
    statement_source (Statement.while_loop s c body) =
        codes "while (" ++ source c ++ codes ") " ++ statement_source body
    statement_source (Statement.empty s) = []

    pub maybe_source : MaybeNode → Text
    maybe_source MaybeNode.no_node = []
    maybe_source (MaybeNode.a_node a) = source a

    pub maybe_statement_source : MaybeStatement → Text
    maybe_statement_source MaybeStatement.no_statement = []
    maybe_statement_source (MaybeStatement.a_statement s) = statement_source s
