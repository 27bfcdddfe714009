-- ===== src/Predicate/Syntax.antt =====
-- The syntax trees that `ast.parse(…, mode="eval")` gives, and the allow-list of `_parse`. Python's
-- parser is a parameter; node types outside the list are the constructors named `other`.
use civ_sim_taskify.Prelude.{String, Bool, true, false, ◌&&◌, if◌then◌else◌}
use civ_sim_taskify.Errors.{Result, ok, err, predicate_evaluation_error}
use civ_sim_taskify.Models.Value.{Value}

pub data BoolOp : Type 0 where
  and_ or_ : BoolOp

pub data BinOp : Type 0 where
  add sub other_bin_op : BinOp

pub data UnaryOp : Type 0 where
  not_ neg other_unary_op : UnaryOp

pub data CmpOp : Type 0 where
  eq not_eq lt lt_e gt gt_e in_ not_in other_cmp_op : CmpOp

mutual
  pub data Expr : Type 0 where
    constant : Value → Expr
    list_expr : Exprs → Expr
    name : String → Expr
    attribute : Expr → String → Expr
    unary : UnaryOp → Expr → Expr
    bool_op : BoolOp → Exprs → Expr
    bin_op : BinOp → Expr → Expr → Expr
    compare_expr : Expr → Comparisons → Expr
    other : Exprs → Expr

  pub data Exprs : Type 0 where
    no_more : Exprs
    more : Expr → Exprs → Exprs

  pub data Comparisons : Type 0 where
    done : Comparisons
    against : CmpOp → Expr → Comparisons → Comparisons

abbrev unary_allowed : UnaryOp → Bool
unary_allowed other_unary_op = false
unary_allowed _ = true

abbrev bin_allowed : BinOp → Bool
bin_allowed other_bin_op = false
bin_allowed _ = true

abbrev cmp_allowed : CmpOp → Bool
cmp_allowed other_cmp_op = false
cmp_allowed _ = true

-- Every node that `ast.walk` reaches is in `_ALLOWED_NODE_TYPES`.
unfoldable mutual
  pub allowed : Expr → Bool
  allowed (constant v) = true
  allowed (list_expr es) = all_allowed es
  allowed (name n) = true
  allowed (attribute e a) = allowed e
  allowed (unary op e) = unary_allowed op && allowed e
  allowed (bool_op op es) = all_allowed es
  allowed (bin_op op e f) = bin_allowed op && (allowed e && allowed f)
  allowed (compare_expr e cs) = allowed e && compared_allowed cs
  allowed (other es) = false

  pub all_allowed : Exprs → Bool
  all_allowed no_more = true
  all_allowed (more e es) = allowed e && all_allowed es

  pub compared_allowed : Comparisons → Bool
  compared_allowed done = true
  compared_allowed (against op e cs) = cmp_allowed op && (allowed e && compared_allowed cs)

-- Python's parser: an error stands for its SyntaxError.
pub record Python : Type 0 where
  pub ast_parse : String → Result Expr
  -- `getattr(v, name, None)` of a value that is no mapping.
  pub getattr : Value → String → Value

abbrev pub checked : Result Expr → Result Expr
checked (err e) = err predicate_evaluation_error
checked (ok tree) = if allowed tree then ok tree else err predicate_evaluation_error

-- `_parse`
unfoldable pub parse : Python → String → Result Expr
parse python predicate = checked (python.ast_parse predicate)
