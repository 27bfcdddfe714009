-- ===== src/Predicate/Monotone.antt =====
-- A predicate that has a value keeps it when more names are bound.
use civ_sim_taskify.Prelude.{String, ◌≡◌, Bool, true, false, some, if◌then◌else◌, arith}
use civ_sim_taskify.Errors.{Error, Result, ok, err, predicate_evaluation_error, ◌>>=◌, >>=-eq-ok}
use civ_sim_taskify.Models.Value.{Value, null, arr, Items, cons}
use civ_sim_taskify.Predicate.Values.{get_field, truthy}
use civ_sim_taskify.Predicate.Syntax.{
  BoolOp, Expr, constant, list_expr, name, attribute, unary, bool_op, bin_op, compare_expr, other,
  Exprs, no_more, more, Comparisons, done, against, Python, parse,
}
use civ_sim_taskify.Predicate.Eval.{
  Bindings, resolve_name, resolve_attribute, apply_unary, apply_binop, apply_comparison, eval_node,
  eval_all, eval_bool_op, eval_compare, unless_stopped, while_true, evaluate_predicate,
}

-- Every name that `b` binds is bound to the same value in `c`.
abbrev pub Extends : Bindings → Bindings → Type 0
Extends b c = (k : String) (v : Value) → get_field b k ≡ some v → get_field c k ≡ some v

found_or_error :
    (n : String) (b c : Bindings) (v : Value)
    → Extends b c
    → resolve_name b n ≡ ok v
    → resolve_name c n ≡ ok v
unfolding resolve_name
found_or_error n b c v ext h = ground (arith, ext n v)

bind_mono {ℓ κ} :
    {A : Type ℓ} {B : Type κ} (m m' : Result A) (f g : A → Result B) {r : B}
    → ((a : A) → m ≡ ok a → m' ≡ ok a)
    → ((a : A) → f a ≡ ok r → g a ≡ ok r)
    → (m >>= f) ≡ ok r
    → (m' >>= g) ≡ ok r
bind_mono m m' f g hm hf h = let (a, p, q) = >>=-eq-ok m f h in rw (hm a p) (hf a q)

stopped_mono :
    (op : BoolOp) (v r : Value) (f g : Value → Result Value)
    → ((w : Value) → f w ≡ ok r → g w ≡ ok r)
    → unless_stopped op v f ≡ ok r
    → unless_stopped op v g ≡ ok r
stopped_mono op v r f g h e = ground (arith, h v)

compared_mono :
    (right r : Value) (p : Bool) (f g : Value → Result Value)
    → ((w : Value) → f w ≡ ok r → g w ≡ ok r)
    → while_true right f p ≡ ok r
    → while_true right g p ≡ ok r
compared_mono right r true f g h e = h right e
compared_mono right r false f g h e = e

mutual
  unfolding eval_node

  eval_node_mono :
      (python : Python) (e : Expr) (b c : Bindings) (r : Value)
      → Extends b c
      → eval_node python e b ≡ ok r
      → eval_node python e c ≡ ok r
  eval_node_mono python (constant v) b c r ext h = h
  eval_node_mono python (list_expr es) b c r ext h =
      bind_mono (eval_all python es b) (eval_all python es c) (λ items. ok (arr items))
        (λ items. ok (arr items)) (λ vs. eval_all_mono python es b c vs ext) (λ a q. q) h
  eval_node_mono python (name n) b c r ext h = found_or_error n b c r ext h
  eval_node_mono python (attribute e a) b c r ext h =
      bind_mono (eval_node python e b) (eval_node python e c)
        (λ base. ok (resolve_attribute python base a))
        (λ base. ok (resolve_attribute python base a)) (λ v. eval_node_mono python e b c v ext)
        (λ v q. q) h
  eval_node_mono python (unary op e) b c r ext h =
      bind_mono (eval_node python e b) (eval_node python e c) (apply_unary op) (apply_unary op)
        (λ v. eval_node_mono python e b c v ext) (λ v q. q) h
  eval_node_mono python (bool_op op es) b c r ext h =
      eval_bool_op_mono python es op null b c r ext h
  eval_node_mono python (bin_op op e f) b c r ext h =
      bind_mono (eval_node python e b) (eval_node python e c) _ _
        (λ v. eval_node_mono python e b c v ext)
        (λ v q.
          bind_mono (eval_node python f b) (eval_node python f c) (apply_binop op v)
            (apply_binop op v) (λ w. eval_node_mono python f b c w ext) (λ w p. p) q)
        h
  eval_node_mono python (compare_expr e cs) b c r ext h =
      bind_mono (eval_node python e b) (eval_node python e c) _ _
        (λ v. eval_node_mono python e b c v ext) (λ v q. eval_compare_mono python cs v b c r ext q)
        h
  eval_node_mono python (other es) b c r ext h = h

  eval_all_mono :
      (python : Python) (es : Exprs) (b c : Bindings) (r : Items)
      → Extends b c
      → eval_all python es b ≡ ok r
      → eval_all python es c ≡ ok r
  eval_all_mono python no_more b c r ext h = h
  eval_all_mono python (more e es) b c r ext h =
      bind_mono (eval_node python e b) (eval_node python e c) _ _
        (λ v. eval_node_mono python e b c v ext)
        (λ v q.
          bind_mono (eval_all python es b) (eval_all python es c) (λ vs. ok (cons v vs))
            (λ vs. ok (cons v vs)) (λ vs. eval_all_mono python es b c vs ext) (λ w p. p) q)
        h

  eval_bool_op_mono :
      (python : Python) (es : Exprs) (op : BoolOp) (last : Value) (b c : Bindings) (r : Value)
      → Extends b c
      → eval_bool_op python es op last b ≡ ok r
      → eval_bool_op python es op last c ≡ ok r
  eval_bool_op_mono python no_more op last b c r ext h = h
  eval_bool_op_mono python (more e es) op last b c r ext h =
      bind_mono (eval_node python e b) (eval_node python e c) _ _
        (λ v. eval_node_mono python e b c v ext)
        (λ v q.
          stopped_mono op v r (λ w. eval_bool_op python es op w b)
            (λ w. eval_bool_op python es op w c)
            (λ w p. eval_bool_op_mono python es op w b c r ext p) q)
        h

  eval_compare_mono :
      (python : Python) (cs : Comparisons) (left : Value) (b c : Bindings) (r : Value)
      → Extends b c
      → eval_compare python cs left b ≡ ok r
      → eval_compare python cs left c ≡ ok r
  eval_compare_mono python done left b c r ext h = h
  eval_compare_mono python (against op e cs) left b c r ext h =
      bind_mono (eval_node python e b) (eval_node python e c) _ _
        (λ v. eval_node_mono python e b c v ext)
        (λ v q.
          bind_mono (apply_comparison op left v) (apply_comparison op left v) _ _ (λ a z. z)
            (λ p z.
              compared_mono v r p (λ w. eval_compare python cs w b)
                (λ w. eval_compare python cs w c) (λ w y. eval_compare_mono python cs w b c r ext y)
                z)
            q)
        h

gate_mono :
    (g : Bool) (m m' : Result Bool) (e : Error) (r : Bool)
    → (m ≡ ok r → m' ≡ ok r)
    → (if g then m else err e) ≡ ok r
    → (if g then m' else err e) ≡ ok r
gate_mono true m m' e r f h = f h
gate_mono false m m' e r f h = h

-- A predicate that evaluates under some bindings evaluates to the same truth value under any
-- bindings that extend them: more information never changes an answer.
pub evaluate_predicate_mono :
    (python : Python) (predicate : String) (b c : Bindings) (r : Bool)
    → Extends b c
    → evaluate_predicate python predicate b ≡ ok r
    → evaluate_predicate python predicate c ≡ ok r
unfolding evaluate_predicate
evaluate_predicate_mono python predicate b c r ext h =
    gate_mono _ _ _ predicate_evaluation_error r
      (bind_mono (parse python predicate) (parse python predicate) _ _ (λ t q. q)
        (λ tree q.
          bind_mono (eval_node python tree b) (eval_node python tree c) (λ v. ok (truthy v))
            (λ v. ok (truthy v)) (λ v. eval_node_mono python tree b c v ext) (λ v z. z) q))
      h
