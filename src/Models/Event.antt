-- ===== src/Models/Event.antt =====
-- civsim_harness/models/records.py: events on the timeline of a run. Random identifiers are left
-- out, and the free-form `detail` mapping is a constructor for each shape that the components
-- below read back or prove something about.
use civ_sim_taskify.Prelude.{ℕ, String, Option}
use civ_sim_taskify.Models.Run.{Timestamp, LifecycleState}

pub data RunEventType : Type 0 where
  lifecycle_transition lifecycle_command_received preparation_mismatch : RunEventType
  crash_detected hang_detected unresponsive_detected unknown_screen : RunEventType
  save_taken save_failed save_missing resumed turn_abandoned : RunEventType
  turn_ended_on_no_progress observation_assembly_failed : RunEventType
  provider_failure provider_retry provider_fallback context_rejected : RunEventType
  model_chain_exhausted image_withheld capture_failed branch_created : RunEventType
  branch_abandoned run_archived game_build_change_accepted : RunEventType
  disk_headroom_low persistence_failure recovery_limit_reached : RunEventType

pub data Detail : Type 0 where
  no_detail : Detail
  moved : LifecycleState → LifecycleState → Detail
  trigger : RunEventType → Detail
  save : String → Detail
  failures : ℕ → ℕ → Option String → Detail
  streak : ℕ → Detail

pub record RunEvent : Type 0 where
  pub run_id : String
  pub turn_number : Option ℕ
  pub step_index : Option ℕ
  pub event_type : RunEventType
  pub occurred_at : Timestamp
  pub detail : Detail
