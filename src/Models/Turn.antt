-- ===== src/Models/Turn.antt =====
-- civsim_harness/models/turn.py and models/common.py: how a step and a turn attempt end, what a
-- step observes, and the image that is taken for it.
use civ_sim_taskify.Prelude.{ℕ, Bool, true, false, not, ◌&&◌, Option, String, List}
use civ_sim_taskify.Errors.{Result, ok, validation_error, raise_if, ◌>>◌}
use civ_sim_taskify.Models.Run.{Timestamp, is_some, is_none}
use civ_sim_taskify.Models.Value.{Value}

pub data StepProgress : Type 0 where
  changed_state no_change rejected : StepProgress

pub data TurnOutcome : Type 0 where
  ended_by_agent ended_on_no_progress abandoned : TurnOutcome

pub data LuaContext : Type 0 where
  game_core_tuner in_game : LuaContext

pub record ObservationEntry : Type 0 where
  pub declaration_id : String
  pub key : String
  pub value : Value
  pub context : LuaContext

-- Identifiers are numbers here.
pub record Observation : Type 0 where
  pub observation_id : ℕ
  pub decision_step_id : ℕ
  pub assembled_at : Timestamp
  pub catalog_version : String
  pub entries : List ObservationEntry
  pub captures : List ℕ
  pub screen_identity : String

pub data ScreeningStatus : Type 0 where
  screened_clean withheld : ScreeningStatus

pub data WithheldReason : Type 0 where
  non_player_ui geometry_mismatch provenance_failure capture_failed : WithheldReason

-- The camera state is left out.
pub record ScreenCapture : Type 0 where
  pub capture_id : ℕ
  pub run_id : String
  pub turn_number : ℕ
  pub decision_step_id : ℕ
  pub captured_at : Timestamp
  pub view_declaration_id : String
  pub screening_status : ScreeningStatus
  pub withheld_reason : Option WithheldReason
  pub shown_to_agent : Bool
  pub retained_as_evidence : Bool
  pub blob_ref : Option String
  pub capture_path : String

abbrev pub is_clean : ScreeningStatus → Bool
is_clean screened_clean = true
is_clean withheld = false

-- `ScreenCapture.model_validate`: `_enforce_withholding_invariant`.
unfoldable pub validate_capture : ScreenCapture → Result ScreenCapture
validate_capture c = do
  raise_if (not (is_clean c.screening_status) && is_none c.withheld_reason) validation_error
  raise_if (not (is_clean c.screening_status) && is_some c.blob_ref) validation_error
  raise_if (not (is_clean c.screening_status) && c.shown_to_agent) validation_error
  raise_if (is_clean c.screening_status && is_some c.withheld_reason) validation_error
  raise_if (c.shown_to_agent && not (is_clean c.screening_status)) validation_error
  ok c
