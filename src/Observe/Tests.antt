-- ===== src/Observe/Tests.antt =====
-- observe/assemble.py and observe/capture.py on a catalog of one declaration.
use civ_sim_taskify.Prelude.{
  ℕ, zero, suc, String, ◌≡◌, refl, ap, ◌∙◌, sym, true, false, none, some, [], ◌∷◌, str_eq,
  Bool-cases, inl, inr, eq_iff, arith,
}
use civ_sim_taskify.Errors.{ok}
use civ_sim_taskify.Models.Value.{obj, text, end, field}
use civ_sim_taskify.Models.Turn.{Observation, screened_clean, geometry_mismatch, validate_capture}
use civ_sim_taskify.Act.Registry.{
  Catalog, ParityDeclaration, CapabilityResult, in_game, observation, lookup_declaration,
  filter_to_entries, resolve_observable, resolve,
}
use civ_sim_taskify.Observe.Schema.{
  schema, property, no_properties, any_items, schema_errors, matches_any_type,
}
use civ_sim_taskify.Observe.Assemble.{
  Header, assemble_observation, all_entries, entries_of, validate_output,
}
use civ_sim_taskify.Observe.Assemble.Entries.{Entries, assemble_observation-Entries}
use civ_sim_taskify.Observe.Capture.{
  Attempted, CaptureInputs, StepCapture, clean, withheld_for, capture_for_step, last_attempt,
  attempts, wire_media_type,
}
use civ_sim_taskify.Observe.Capture.Bounded.{Shows, HasClean, capture_for_step-HasClean}
use civ_sim_taskify.Prelude.{◌↔◌}
use civ_sim_taskify.Predicate.Values.{get_field}

abbrev screen : ParityDeclaration
screen = record {
  declaration_id = "game.screen_state";
  kind = observation;
  context = in_game;
  capability_id = "screen";
  availability_predicate = none;
  verification_predicate = none;
  output_schema = some (
      schema (some ("object" ∷ [])) ("screen" ∷ [])
        (property "screen" (schema (some ("string" ∷ [])) [] no_properties any_items) no_properties)
        any_items);
}

abbrev catalog : Catalog
catalog = record { declarations = ("game.screen_state", screen) ∷ [] }

abbrev reading : CapabilityResult
reading = record {
  declaration_id = "game.screen_state";
  value = obj (field "screen" (text "world") end);
}

abbrev header : Header
header = record {
  observation_id = 1;
  decision_step_id = 4;
  assembled_at = 9;
  catalog_version = "1";
}

abbrev assembled : Observation
assembled = record {
  observation_id = 1;
  decision_step_id = 4;
  assembled_at = 9;
  catalog_version = "1";
  entries =
      record {
        declaration_id = "game.screen_state";
        key = "game.screen_state";
        value = obj (field "screen" (text "world") end);
        context = in_game;
      }
      ∷ [];
  captures = 5 ∷ [];
  screen_identity = "world";
}

first_assembled : assemble_observation catalog header (reading ∷ []) "world" (5 ∷ []) ≡ ok assembled
unfolding assemble_observation all_entries entries_of validate_output filter_to_entries
    resolve_observable resolve schema_errors matches_any_type get_field
first_assembled = refl

catalog_keyed :
    (k : String) (d : ParityDeclaration)
    → lookup_declaration catalog.declarations k ≡ some d
    → d.declaration_id ≡ k
catalog_keyed k d h = elim (Bool-cases (str_eq "game.screen_state" k)) [
  | inl e ↦
      let same : screen ≡ d = ground arith in
      ap (λ z. z.declaration_id) (sym same) ∙ (eq_iff "game.screen_state" k).0 e
  | inr e ↦ absurd (ground arith)
]

assemble_observation-Entries_example :
    Entries catalog (reading ∷ []) assembled.entries
    × (assembled.decision_step_id ≡ 4)
    × (assembled.observation_id ≡ 1)
    × (assembled.screen_identity ≡ "world")
    × (assembled.captures ≡ 5 ∷ [])
    × (assembled.assembled_at ≡ 9)
    × (assembled.catalog_version ≡ "1")
assemble_observation-Entries_example =
    assemble_observation-Entries catalog catalog_keyed header (reading ∷ []) "world" (5 ∷ [])
      assembled first_assembled

-- The first frame does not fit the window, the second one does.
abbrev attempted : ℕ → Attempted
attempted zero = record {
  capture_path = "xcomposite";
  frame = none;
  outcome = withheld_for geometry_mismatch;
}
attempted (suc j) = record {
  capture_path = "xcomposite";
  frame = some (record { image_bytes = 7 ∷ []; image_format = "PNG" });
  outcome = clean;
}

abbrev inputs : CaptureInputs
inputs = record {
  window_resolved = true;
  attempt_once = attempted;
  max_attempts = 3;
  sha256 = λ bytes. "digest";
  upper = λ s. s;
  view_declaration_id = "view.main";
  run_id = "run-1";
  turn_number = 12;
  decision_step_id = 4;
  step_index = 4;
  captured_at = 9;
  capture_id = 4;
}

abbrev taken : StepCapture
taken = record {
  capture = record {
    capture_id = 4;
    run_id = "run-1";
    turn_number = 12;
    decision_step_id = 4;
    captured_at = 9;
    view_declaration_id = "view.main";
    screening_status = screened_clean;
    withheld_reason = none;
    shown_to_agent = false;
    retained_as_evidence = true;
    blob_ref = some "digest";
    capture_path = "xcomposite";
  };
  events = [];
  blob = some (7 ∷ []);
  blob_media_type = some "image/png";
  visually_degraded = false;
}

frame_taken : capture_for_step inputs ≡ ok taken
unfolding capture_for_step last_attempt attempts validate_capture wire_media_type
frame_taken = refl

capture_for_step-HasClean_example :
    Shows inputs taken × ((screened_clean ≡ screened_clean) ↔ HasClean inputs)
capture_for_step-HasClean_example = capture_for_step-HasClean inputs taken frame_taken
