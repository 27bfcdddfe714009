-- ===== src/Predicate/Tests.antt =====
-- civsim_harness/act/predicates.py on a predicate of one comparison. Python's parser is a function
-- that knows this predicate alone.
use civ_sim_taskify.Prelude.{◌≡◌, refl, true, str_eq, if◌then◌else◌, arith}
use civ_sim_taskify.Prelude.Int.{pos}
use civ_sim_taskify.Errors.{ok, err, value_error, predicate_evaluation_error}
use civ_sim_taskify.Models.Value.{null, num, field, end}
use civ_sim_taskify.Predicate.Symbols.{unknown_predicate_symbols}
use civ_sim_taskify.Predicate.Values.{get_field, order, truthy}
use civ_sim_taskify.Predicate.Syntax.{
  Python, Expr, constant, name, compare_expr, done, against, gt, parse, allowed,
}
use civ_sim_taskify.Predicate.Eval.{
  Bindings, evaluate_predicate, eval_node, resolve_name, apply_comparison,
}
use civ_sim_taskify.Predicate.Monotone.{Extends, evaluate_predicate_mono}

abbrev at_war : Expr
at_war = compare_expr (name "target") (against gt (constant (num (pos 2))) done)

abbrev python : Python
python = record {
  ast_parse = λ s. if str_eq s "target > 2" then ok at_war else err value_error;
  getattr = λ v a. null;
}

abbrev few : Bindings
few = field "target" (num (pos 3)) end

abbrev many : Bindings
many = field "target" (num (pos 3)) (field "observed_turn_number" (num (pos 1)) end)

few_Extends-many : Extends few many
unfolding get_field
few_Extends-many n v h = ground arith

unknown_symbol : evaluate_predicate python "elsewhere > 2" few ≡ err predicate_evaluation_error
unfolding evaluate_predicate unknown_predicate_symbols
unknown_symbol = refl

target_large : evaluate_predicate python "target > 2" few ≡ ok true
unfolding evaluate_predicate parse allowed eval_node resolve_name get_field apply_comparison order
    truthy unknown_predicate_symbols
target_large = refl

evaluate_predicate_mono_example : evaluate_predicate python "target > 2" many ≡ ok true
evaluate_predicate_mono_example =
    evaluate_predicate_mono python "target > 2" few many true few_Extends-many target_large
