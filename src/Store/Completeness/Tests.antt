-- ===== src/Store/Completeness/Tests.antt =====
-- A branch that attempted two turns from its branch point on, and one of them with a missing step.
use civ_sim_taskify.Prelude.{◌≡◌, refl, ◌↔◌, none, [], ◌∷◌, ◌==◌, if◌then◌else◌}
use civ_sim_taskify.Models.Run.{complete, has_gaps, unknown}
use civ_sim_taskify.Store.Completeness.{
  Reads, any_step_gap, first_owed_turn, record_completeness_status,
}
use civ_sim_taskify.Store.Completeness.Owed.{IsComplete, record_completeness_status_iff}

abbrev whole : Reads
whole = record {
  list_save_points = 2 ∷ 1 ∷ [];
  get_run = none;
  turn_gaps = [];
  step_gaps = λ t. [];
}

abbrev gapped : Reads
gapped = record whole { step_gaps = λ t. if t == 2 then 3 ∷ [] else [] }

whole_complete : record_completeness_status whole ≡ complete
unfolding record_completeness_status any_step_gap first_owed_turn
whole_complete = refl

gapped_found : record_completeness_status gapped ≡ has_gaps
unfolding record_completeness_status any_step_gap first_owed_turn
gapped_found = refl

not_attempted : record_completeness_status (record whole { list_save_points = [] }) ≡ unknown
unfolding record_completeness_status any_step_gap first_owed_turn
not_attempted = refl

record_completeness_status_iff_example :
    (record_completeness_status gapped ≡ complete) ↔ IsComplete gapped
record_completeness_status_iff_example = record_completeness_status_iff gapped
