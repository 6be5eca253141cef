-- ===== src/Sql/Operators.antt =====
-- src/teaql/sql/dialect.py: the texts of operators, functions and directions.
use teaql_python.Base.{Bool, true, false, List, [], ◌∷◌, ◌++◌, if◌then◌else◌, list_eq, nat_eq}
use teaql_python.Base.Text.{Text, text}
use teaql_python.Sql.Core.{Piece, raw}
use teaql_python.Sql.Exprs.{
  BinaryOp, op_eq, op_ne, op_gt, op_gte, op_lt, op_lte, op_like, op_not_like, op_in, op_not_in,
  op_in_large, op_not_in_large, ExprFunction, soundex, gbk, count, sum, avg, min, max, stddev,
  stddev_pop, var_samp, var_pop, bit_and, bit_or, bit_xor, SortDirection, ascending, descending,
}

abbrev pub operator_text : BinaryOp → Text
operator_text op_eq = text "="
operator_text op_ne = text "!="
operator_text op_gt = text ">"
operator_text op_gte = text ">="
operator_text op_lt = text "<"
operator_text op_lte = text "<="
operator_text op_like = text "LIKE"
operator_text op_not_like = text "NOT LIKE"
operator_text op_in = text "IN"
operator_text op_in_large = text "IN"
operator_text op_not_in = text "NOT IN"
operator_text op_not_in_large = text "NOT IN"

-- `expr.op in (BinaryOp.In, …)`
abbrev pub is_membership : BinaryOp → Bool
is_membership op_in = true
is_membership op_not_in = true
is_membership op_in_large = true
is_membership op_not_in_large = true
is_membership _ = false

abbrev pub function_text : ExprFunction → Text
function_text soundex = text "SOUNDEX"
function_text gbk = text "GBK"
function_text count = text "COUNT"
function_text sum = text "SUM"
function_text avg = text "AVG"
function_text min = text "MIN"
function_text max = text "MAX"
function_text stddev = text "STDDEV"
function_text stddev_pop = text "STDDEV_POP"
function_text var_samp = text "VAR_SAMP"
function_text var_pop = text "VAR_POP"
function_text bit_and = text "BIT_AND"
function_text bit_or = text "BIT_OR"
function_text bit_xor = text "BIT_XOR"

abbrev pub is_count : ExprFunction → Bool
is_count count = true
is_count _ = false

abbrev pub is_gbk : ExprFunction → Bool
is_gbk gbk = true
is_gbk _ = false

-- a call of a function; GBK stands for its argument
abbrev pub call_text : ExprFunction → List Piece → List Piece
call_text f arg =
    if is_gbk f
    then arg
    else raw (function_text f) ∷ raw (text "(") ∷ (arg ++ (raw (text ")") ∷ []))

abbrev pub direction_text : SortDirection → Text
direction_text ascending = text " ASC"
direction_text descending = text " DESC"
