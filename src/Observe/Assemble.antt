-- ===== src/Observe/Assemble.antt =====
-- observe/assemble.py: one observation from the results of the capabilities that a step read.
pub mod Entries
use civ_sim_taskify.Prelude.{
  ℕ, String, Bool, true, false, not, Option, none, some, List, [], ◌∷◌, ◌++◌, ◌==◌,
}
use civ_sim_taskify.Errors.{
  Error, Result, ok, err, observation_assembly_error, assertion_error, raise_if, ◌>>=◌, ◌>>◌,
}
use civ_sim_taskify.Models.Run.{Timestamp}
use civ_sim_taskify.Models.Event.{RunEvent, observation_assembly_failed, no_detail}
use civ_sim_taskify.Models.Turn.{Observation, ObservationEntry}
use civ_sim_taskify.Models.Value.{Value}
use civ_sim_taskify.Observe.Schema.{Schema, schema_errors}
use civ_sim_taskify.Act.Registry.{
  Catalog, ParityDeclaration, CapabilityResult, resolve_observable, filter_to_entries,
}

-- `_validate_output`, whose `assert` is the case of no schema.
abbrev pub conforming : Option Schema → Value → Result (Unit {0})
conforming none v = err assertion_error
conforming (some s) v = raise_if (not (schema_errors s v == 0)) observation_assembly_error

unfoldable pub validate_output : ParityDeclaration → Value → Result (Unit {0})
validate_output d v = conforming d.output_schema v

-- One round of the loop.
unfoldable pub entries_of : Catalog → CapabilityResult → Result (List ObservationEntry)
unfolding validate_output
entries_of catalog r = do
  d ← resolve_observable catalog r.declaration_id
  validate_output d r.value
  filter_to_entries catalog (record { declaration_id = d.declaration_id; value = r.value })

unfoldable pub all_entries : Catalog → List CapabilityResult → Result (List ObservationEntry)
unfolding entries_of
all_entries catalog [] = ok []
all_entries catalog (r ∷ rs) = do
  es ← entries_of catalog r
  rest ← all_entries catalog rs
  ok (es ++ rest)

-- The fields that the caller supplies.
pub record Header : Type 0 where
  pub observation_id : ℕ
  pub decision_step_id : ℕ
  pub assembled_at : Timestamp
  pub catalog_version : String

unfoldable pub assemble_observation :
    Catalog → Header → List CapabilityResult → String → List ℕ → Result Observation
unfolding all_entries
assemble_observation catalog h results screen_identity captures = do
  es ← all_entries catalog results
  ok (record {
    observation_id = h.observation_id;
    decision_step_id = h.decision_step_id;
    assembled_at = h.assembled_at;
    catalog_version = h.catalog_version;
    entries = es;
    captures = captures;
    screen_identity = screen_identity;
  })

unfoldable pub handle_assembly_failure : String → ℕ → Option ℕ → Timestamp → RunEvent
handle_assembly_failure run_id turn step at = record {
  run_id = run_id;
  turn_number = some turn;
  step_index = step;
  event_type = observation_assembly_failed;
  occurred_at = at;
  detail = no_detail;
}
