-- ===== src/Runner/Failures.antt =====
-- run/runner.py: what an exception of a turn does to the run.
pub mod Pauses
use civ_sim_taskify.Prelude.{Bool, true, false, Option, none, some, if◌then◌else◌}
use civ_sim_taskify.Errors.{
  Error, recovery_limit_reached, save_addressing_error, validation_error, value_error,
  file_not_found, struct_error, unicode_error, timeout_error, assertion_error,
}
use civ_sim_taskify.Models.Run.{paused, is_terminal}
use civ_sim_taskify.Models.Event.{RunEvent}
use civ_sim_taskify.Resilience.Recovery.{write_run_event}
use civ_sim_taskify.Run.LoopState.{
  Failure, mid_turn_observation_failure, unknown_screen_encountered, out_of_fuel,
}
use civ_sim_taskify.Run.LoopState
use civ_sim_taskify.Run.Actions.{returned, modify, ◌>>◌}
use civ_sim_taskify.Turn.State.{TurnFailure, raised, stopped, still_replaying}
use civ_sim_taskify.Runner.State.{
  Runner, RunnerDependencies, Do, with_state, with_run, with_store, refreshed, advance,
}

-- The classes of the harness, and not those of Python and of the model validation.
abbrev pub is_harness_error : Error → Bool
is_harness_error validation_error = false
is_harness_error value_error = false
is_harness_error file_not_found = false
is_harness_error struct_error = false
is_harness_error unicode_error = false
is_harness_error timeout_error = false
is_harness_error assertion_error = false
is_harness_error e = true

abbrev of_loop : Failure → Bool
of_loop (LoopState.raised e) = is_harness_error e
of_loop (mid_turn_observation_failure steps events k) = true
of_loop (unknown_screen_encountered e) = true
of_loop (out_of_fuel steps) = false

-- `except HarnessError`; a turn whose fuel is used up raises nothing.
abbrev pub is_caught : TurnFailure → Bool
is_caught (raised e) = is_harness_error e
is_caught (stopped f) = of_loop f
is_caught still_replaying = false

-- The two exceptions after which the recovery has recorded the end of the run itself.
abbrev pub ends_run : TurnFailure → Bool
ends_run (raised recovery_limit_reached) = true
ends_run (raised save_addressing_error) = true
ends_run f = false

abbrev pub event_of : TurnFailure → Option RunEvent
event_of (stopped (unknown_screen_encountered e)) = some e
event_of f = none

abbrev pub with_event : Option RunEvent → Runner → Runner
with_event none r = r
with_event (some e) r = with_store (write_run_event e r.harness.store) r

module _ (deps : RunnerDependencies) where
  abbrev pub noted : TurnFailure → Runner → Runner
  noted f r = with_state (record r.state { last_error = some (f, deps.clock r.harness.deeds 1) }) r

  -- `_pause_on_failure`
  unfoldable pub pause_on_failure : Do (Unit {0})
  unfolding advance
  pause_on_failure r =
      if is_terminal r.state.run.lifecycle_state
      then (returned tt, r)
      else (advance deps paused >> modify (refreshed deps)) r

  -- `_resync_after_external_termination`
  unfoldable pub resync_after_external_termination : Do (Unit {0})
  unfolding pause_on_failure
  resync_after_external_termination r =
      let synced = with_run r.harness.store.run r in
      if is_terminal synced.state.run.lifecycle_state
      then (returned tt, refreshed deps synced)
      else pause_on_failure synced

  -- `_handle_run_failure`
  unfoldable pub handle_run_failure : TurnFailure → Do (Unit {0})
  unfolding resync_after_external_termination write_run_event
  handle_run_failure f r =
      if ends_run f
      then resync_after_external_termination (noted f r)
      else pause_on_failure (with_event (event_of f) (noted f r))
