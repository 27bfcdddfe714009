-- ===== src/Agent/Tests.antt =====
-- agent/decisions.py on an answer in a list of one.
use civ_sim_taskify.Prelude.{◌≡◌, refl, Bool, true, false, none, some, str_eq}
use civ_sim_taskify.Errors.{ok, err, multiple_decisions_error}
use civ_sim_taskify.Models.Value.{Value, text, arr, obj, Items, nil, cons, end, field}
use civ_sim_taskify.Predicate.Values.{get_field}
use civ_sim_taskify.Provider.Port.{RawDecision}
use civ_sim_taskify.Agent.Decisions.{Json, as_decision, parse_decision}
use civ_sim_taskify.Agent.Decisions.Shape.{IsReadFrom, parse_decision-IsReadFrom}

abbrev answer : Value
answer = obj (
    field "action_declaration_id" (text "unit.move")
      (field "reasoning" (text "towards the river") end))

-- A parser of the answers "one" and "two".
abbrev one_or_two : Bool → Items
one_or_two true = cons answer nil
one_or_two false = cons answer (cons answer nil)

abbrev json : Json
json = record { loads = λ s. some (arr (one_or_two (str_eq s "one"))); is_blank = λ s. str_eq s "" }

abbrev decision : RawDecision
decision = record {
  action_declaration_id = "unit.move";
  reasoning = "towards the river";
  parameters = end;
  is_end_turn = false;
  prompt_type = none;
}

one_parsed : parse_decision json (some "one") ≡ ok (some decision)
unfolding parse_decision as_decision get_field
one_parsed = refl

two_refused : parse_decision json (some "two") ≡ err multiple_decisions_error
unfolding parse_decision
two_refused = refl

parse_decision-IsReadFrom_example :
    (json.is_blank "one" ≡ false)
    × ((v : Value) × (json.loads "one" ≡ some v) × IsReadFrom json decision v)
parse_decision-IsReadFrom_example = parse_decision-IsReadFrom json "one" decision one_parsed
