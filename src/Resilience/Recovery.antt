-- ===== src/Resilience/Recovery.antt =====
-- civsim_harness/resilience/recovery.py: from an interruption back to play, or to failure. The
-- loader of saves is a parameter that may raise. What the store holds for the run is the state;
-- its writes succeed, and the details of events are left out.
pub mod Outcomes
pub mod Limit
pub mod Missing
pub mod Retry
pub mod Works
mod Tests
use civ_sim_taskify.Prelude.{
  ℕ, zero, suc, String, Bool, true, false, not, ◌||◌, Option, none, some, List, [], ◌∷◌, ◌++◌, ltb,
  ◌==◌, if◌then◌else◌,
}
use civ_sim_taskify.Errors.{
  Error, Result, ok, err, value_error, harness_error, save_addressing_error, file_not_found, ◌>>=◌,
}
use civ_sim_taskify.Errors
use civ_sim_taskify.Models.Run.{
  Timestamp, LifecycleState, playing, interrupted, resuming, failed, Run, unrecoverable_failure,
}
use civ_sim_taskify.Models.Event.{
  RunEvent, RunEventType, resumed, turn_abandoned, save_missing, recovery_limit_reached,
  observation_assembly_failed, no_detail,
}
use civ_sim_taskify.Lifecycle.{transition}

-- models/records.py; the lineage of a save point is left out.
pub data RetentionStatus : Type 0 where
  retained eligible removed : RetentionStatus

pub record SavePoint : Type 0 where
  pub save_point_id : ℕ
  pub run_id : String
  pub turn_number : ℕ
  pub save_name : String
  pub taken_at : Timestamp
  pub verified : Bool
  pub retention_status : RetentionStatus
  pub missing : Bool

-- The engine's counter, and what the store holds: the run, its events in order and its save
-- points, in the order of their first write.
pub record World : Type 0 where
  pub consecutive_failures : ℕ
  pub run : Run
  pub events : List RunEvent
  pub save_points : List SavePoint

pub record RecoveryResult : Type 0 where
  pub run : Run
  pub resumed_from : SavePoint
  pub events : List RunEvent

unfoldable pub write_run_event : RunEvent → World → World
write_run_event e w = record w { events = w.events ++ e ∷ [] }

-- `update_run` with the lifecycle state, and with the fields of a terminal state.
unfoldable pub update_state : Run → World → World
update_state run w = record w { run = record w.run { lifecycle_state = run.lifecycle_state } }

unfoldable pub update_ended : Run → World → World
update_ended run w = record w {
  run = record w.run {
    lifecycle_state = run.lifecycle_state;
    ended_at = run.ended_at;
    stop_resolution = run.stop_resolution;
  };
}

-- `_event`
abbrev pub event : String → Option ℕ → Timestamp → RunEventType → RunEvent
event run_id turn at type = record {
  run_id = run_id;
  turn_number = turn;
  step_index = none;
  event_type = type;
  occurred_at = at;
  detail = no_detail;
}

-- `write_save_point` of the store, which replaces the row of the same id.
unfoldable pub upserted : SavePoint → List SavePoint → List SavePoint
upserted save [] = save ∷ []
upserted save (s ∷ ss) =
    if s.save_point_id == save.save_point_id then save ∷ ss else s ∷ upserted save ss

-- saves/addressing.py
unfoldable pub report_save_missing : SavePoint → Timestamp → World → World
unfolding write_run_event upserted
report_save_missing save at w =
    write_run_event (event save.run_id (some save.turn_number) at save_missing)
      (record w { save_points = upserted (record save { missing = true }) w.save_points })

abbrev pub is_absent : SavePoint → Bool
is_absent save = save.missing || is_removed save.retention_status
  where
    is_removed : RetentionStatus → Bool
    is_removed removed = true
    is_removed _ = false

-- `except FileNotFoundError`
abbrev pub is_not_found : Error → Bool
is_not_found file_not_found = true
is_not_found _ = false

module _ (turn : ℕ) (at : Timestamp) where
  -- A transition, its event and the new state, written in this order.
  abbrev pub moved : Result (Run × RunEvent) → World → Result (Run × RunEvent) × World
  moved (err e) w = (err e, w)
  moved (ok (run, e)) w = (ok (run, e), update_state run (write_run_event e w))

  abbrev pub then_resuming :
      List RunEvent → Result (Run × RunEvent) × World → Result (Run × List RunEvent) × World
  then_resuming before (err e, w) = (err e, w)
  then_resuming before (ok (run, e), w) =
      on_resuming (moved (transition run resuming at (some turn) none none) w)
    where
      on_resuming : Result (Run × RunEvent) × World → Result (Run × List RunEvent) × World
      on_resuming (err e', v) = (err e', v)
      on_resuming (ok (r, e'), v) = (ok (r, before ++ e ∷ e' ∷ []), v)

  abbrev pub only_resuming : Result (Run × RunEvent) × World → Result (Run × List RunEvent) × World
  only_resuming (err e, w) = (err e, w)
  only_resuming (ok (run, e), w) = (ok (run, e ∷ []), w)

  abbrev pub abandoned : Run → RunEvent
  abandoned run = event run.run_id (some turn) at turn_abandoned

  abbrev pub from_state : LifecycleState → Run → World → Result (Run × List RunEvent) × World
  from_state resuming run w = (ok (run, []), w)
  from_state interrupted run w =
      only_resuming (moved (transition run resuming at (some turn) none none) w)
  from_state playing run w = then_resuming (abandoned run ∷ []) (
      moved (transition run interrupted at (some turn) none none)
        (write_run_event (abandoned run) w))
  from_state s run w = (err harness_error, w)

  unfoldable pub ensure_interrupted_and_resuming :
      Run → World → Result (Run × List RunEvent) × World
  unfolding write_run_event update_state transition
  ensure_interrupted_and_resuming run w = from_state run.lifecycle_state run w

  -- The transition to `failed`, its record, and the error that is raised at the end.
  abbrev pub failed_with : Error → Result (Run × RunEvent) → World → Result RecoveryResult × World
  failed_with cause (err e) w = (err e, w)
  failed_with cause (ok (run, e)) w = (err cause, update_ended run (write_run_event e w))

  abbrev pub fail_run : Run → Error → World → Result RecoveryResult × World
  fail_run run cause w =
      failed_with cause (transition run failed at none none (some unrecoverable_failure)) w

  -- `_fail_on_missing_save`
  abbrev pub fail_on_missing_save : Run → World → Result RecoveryResult × World
  fail_on_missing_save run w = fail_run run save_addressing_error w

  -- `_on_recovery_attempt_failed`, and the error raised again below the limit.
  abbrev pub on_recovery_attempt_failed : ℕ → Run → Error → World → Result RecoveryResult × World
  on_recovery_attempt_failed limit run cause w =
      let v = record w { consecutive_failures = suc w.consecutive_failures } in
      if ltb v.consecutive_failures limit
      then (err cause, v)
      else fail_run run Errors.recovery_limit_reached
          (write_run_event (event run.run_id none at recovery_limit_reached) v)

  -- The end of the `try`: its three exits.
  abbrev pub on_attempt :
      ℕ
      → Run
      → SavePoint
      → List RunEvent
      → Result (Run × RunEvent)
      → World
      → Result RecoveryResult × World
  on_attempt limit run save before (ok (back, e)) w =
      let done = event run.run_id (some turn) at resumed in
      (
        ok (record { run = back; resumed_from = save; events = before ++ e ∷ done ∷ [] }),
        record (update_state back (write_run_event done (write_run_event e w))) {
          consecutive_failures = 0;
        },
      )
  on_attempt limit run save before (err e) w =
      if is_not_found e
      then fail_on_missing_save run (report_save_missing save at w)
      else on_recovery_attempt_failed limit run e w

  abbrev pub from_resuming :
      ℕ
      → (SavePoint → Result (Unit {0}))
      → SavePoint
      → Result (Run × List RunEvent) × World
      → Result RecoveryResult × World
  from_resuming limit load save (err e, w) = (err e, w)
  from_resuming limit load save (ok (run, before), w) =
      if is_absent save
      then fail_on_missing_save run w
      else on_attempt limit run save before
          (load save >>= λ _. transition run playing at (some turn) none none) w

  unfoldable pub recover :
      ℕ → (SavePoint → Result (Unit {0})) → Run → SavePoint → World → Result RecoveryResult × World
  unfolding ensure_interrupted_and_resuming report_save_missing write_run_event update_ended
      update_state transition
  recover limit load run save w =
      if save.turn_number == turn
      then from_resuming limit load save (ensure_interrupted_and_resuming run w)
      else (err value_error, w)

  -- `recover_from_observation_assembly_error`, with its own reading of the clock.
  unfoldable pub recover_from_observation_assembly_error :
      Timestamp
      → ℕ
      → (SavePoint → Result (Unit {0}))
      → Run
      → SavePoint
      → World
      → Result RecoveryResult × World
  unfolding write_run_event
  recover_from_observation_assembly_error observed_at limit load run save w =
      recover limit load run save
        (write_run_event (event run.run_id (some turn) observed_at observation_assembly_failed) w)
