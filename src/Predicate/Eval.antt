-- ===== src/Predicate/Eval.antt =====
-- act/predicates.py: the evaluator.
use Prim.Native.Nat.{Ordering}
use civ_sim_taskify.Prelude.{
  ℕ, String, Bool, true, false, not, Option, none, some, List, [], ◌∷◌, str_eq, if◌then◌else◌,
}
use civ_sim_taskify.Prelude.Int.{ℤ, pos, ◌+ℤ◌, ◌-ℤ◌}
use civ_sim_taskify.Errors.{Result, ok, err, predicate_evaluation_error, ◌>>=◌}
use civ_sim_taskify.Models.Value.{Value, null, bool, num, arr, obj, Items, nil, cons, Fields}
use civ_sim_taskify.Predicate.Symbols.{unknown_predicate_symbols}
use civ_sim_taskify.Predicate.Values.{get_field, truthy, value_eq, order, member_of, as_number}
use civ_sim_taskify.Predicate.Syntax.{
  BoolOp, and_, or_, BinOp, add, sub, other_bin_op, UnaryOp, not_, neg, other_unary_op, CmpOp, eq,
  not_eq, lt, lt_e, gt, gt_e, in_, not_in, other_cmp_op, Expr, constant, list_expr, name, attribute,
  unary, bool_op, bin_op, compare_expr, other, Exprs, no_more, more, Comparisons, done, against,
  Python, parse,
}

-- The names in scope: the latest binding of a name is found first.
abbrev pub Bindings : Type 0
Bindings = Fields

-- `_resolve_name`
unfoldable pub resolve_name : Bindings → String → Result Value
resolve_name b n =
    if str_eq n "true"
    then ok (bool true)
    else if str_eq n "false"
    then ok (bool false)
    else if str_eq n "null"
    then ok null
    else elim (get_field b n) [ none ↦ err predicate_evaluation_error | some v ↦ ok v ]

abbrev or_null : Option Value → Value
or_null none = null
or_null (some v) = v

-- `_resolve_attribute`
unfoldable pub resolve_attribute : Python → Value → String → Value
resolve_attribute python null attr = if str_eq attr "exists" then bool false else null
resolve_attribute python (obj fs) attr = or_null (get_field fs attr)
resolve_attribute python v attr = python.getattr v attr

abbrev negated : Option ℤ → Result Value
negated none = err predicate_evaluation_error
negated (some z) = ok (num (pos 0 -ℤ z))

unfoldable pub apply_unary : UnaryOp → Value → Result Value
apply_unary not_ v = ok (bool (not (truthy v)))
apply_unary neg v = negated (as_number v)
apply_unary other_unary_op v = negated (as_number v)

-- `_eval_binop` on its two operands; booleans are no numbers here.
unfoldable pub apply_binop : BinOp → Value → Value → Result Value
apply_binop add (num a) (num b) = ok (num (a +ℤ b))
apply_binop sub (num a) (num b) = ok (num (a -ℤ b))
apply_binop other_bin_op (num a) (num b) = ok (num (a -ℤ b))
apply_binop op v w = err predicate_evaluation_error

abbrev by_order : (Ordering → Bool) → Option Ordering → Result Bool
by_order test none = err predicate_evaluation_error
by_order test (some o) = ok (test o)

abbrev by_member : (Bool → Bool) → Option Bool → Result Bool
by_member f none = err predicate_evaluation_error
by_member f (some b) = ok (f b)

abbrev is_null : Value → Bool
is_null null = true
is_null v = false

-- `_apply_comparison`
unfoldable pub apply_comparison : CmpOp → Value → Value → Result Bool
apply_comparison eq v w = ok (value_eq v w)
apply_comparison not_eq v w = ok (not (value_eq v w))
apply_comparison lt v w = by_order (λ o. elim o [ Ordering.lt ↦ true | _ ↦ false ]) (order v w)
apply_comparison lt_e v w = by_order (λ o. elim o [ Ordering.gt ↦ false | _ ↦ true ]) (order v w)
apply_comparison gt v w = by_order (λ o. elim o [ Ordering.gt ↦ true | _ ↦ false ]) (order v w)
apply_comparison gt_e v w = by_order (λ o. elim o [ Ordering.lt ↦ false | _ ↦ true ]) (order v w)
apply_comparison in_ v w = if is_null w then ok false else by_member (λ b. b) (member_of v w)
apply_comparison not_in v w = if is_null w then ok true else by_member not (member_of v w)
apply_comparison other_cmp_op v w = err predicate_evaluation_error

abbrev stops : BoolOp → Value → Bool
stops and_ v = not (truthy v)
stops or_ v = truthy v

-- The loop of `_eval_bool_op`: `rest` goes on from the value last read.
abbrev pub unless_stopped : BoolOp → Value → (Value → Result Value) → Result Value
unless_stopped op v rest = if stops op v then ok v else rest v

-- The loop of `_eval_compare`.
abbrev pub while_true : Value → (Value → Result Value) → Bool → Result Value
while_true right rest true = rest right
while_true right rest false = ok (bool false)

unfoldable mutual
  pub eval_node : Python → Expr → Bindings → Result Value
  eval_node python (constant v) b = ok v
  eval_node python (list_expr es) b = do items ← eval_all python es b; ok (arr items)
  eval_node python (name n) b = resolve_name b n
  eval_node python (attribute e a) b = do
    base ← eval_node python e b
    ok (resolve_attribute python base a)
  eval_node python (unary op e) b = do v ← eval_node python e b; apply_unary op v
  eval_node python (bool_op op es) b = eval_bool_op python es op null b
  eval_node python (bin_op op e f) b = do
    v ← eval_node python e b
    w ← eval_node python f b
    apply_binop op v w
  eval_node python (compare_expr e cs) b = do
    left ← eval_node python e b
    eval_compare python cs left b
  eval_node python (other es) b = err predicate_evaluation_error

  pub eval_all : Python → Exprs → Bindings → Result Items
  eval_all python no_more b = ok nil
  eval_all python (more e es) b = do
    v ← eval_node python e b
    vs ← eval_all python es b
    ok (cons v vs)

  pub eval_bool_op : Python → Exprs → BoolOp → Value → Bindings → Result Value
  eval_bool_op python no_more op last b = ok last
  eval_bool_op python (more e es) op last b = do
    v ← eval_node python e b
    unless_stopped op v (λ w. eval_bool_op python es op w b)

  pub eval_compare : Python → Comparisons → Value → Bindings → Result Value
  eval_compare python done left b = ok (bool true)
  eval_compare python (against op e cs) left b = do
    right ← eval_node python e b
    passed ← apply_comparison op left right
    while_true right (λ w. eval_compare python cs w b) passed

abbrev pub no_unknown : List (List ℕ) → Bool
no_unknown [] = true
no_unknown (s ∷ ss) = false

-- `evaluate_predicate`
unfoldable pub evaluate_predicate : Python → String → Bindings → Result Bool
evaluate_predicate python predicate b =
    if no_unknown (unknown_predicate_symbols predicate)
    then (do tree ← parse python predicate; v ← eval_node python tree b; ok (truthy v))
    else err predicate_evaluation_error
