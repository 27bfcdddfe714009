-- ===== src/Runner/Commands.antt =====
-- run/runner.py: the commands of the operator for one run.
pub mod Skips
use civ_sim_taskify.Prelude.{Bool, true, false, not, ◌&&◌, Option, none, some, if◌then◌else◌}
use civ_sim_taskify.Errors.{harness_error}
use civ_sim_taskify.Models.Run.{
  Run, LifecycleState, playing, paused, finished, same_state, is_terminal,
}
use civ_sim_taskify.Run.Actions.{Outcome, failed, returned, pure, fail, modify, ◌>>=◌, ◌>>◌}
use civ_sim_taskify.Turn.State.{raised}
use civ_sim_taskify.Runner.State.{
  RunState, Runner, RunnerDependencies, failing, Do, with_state, advance,
}

abbrev pub refuse : {A : Type 0} → Do A
refuse = fail (failing (raised harness_error))

unfoldable pub request_pause : Do (Unit {0})
request_pause r =
    if same_state r.state.run.lifecycle_state playing
    then (returned tt, with_state (record r.state { pause_requested = true }) r)
    else refuse r

abbrev pub withdrawn : Runner → Runner
withdrawn r = with_state (record r.state { pause_requested = false }) r

-- Whether the play loop is scheduled again.
unfoldable pub request_resume : RunnerDependencies → Do Bool
unfolding advance
request_resume deps r =
    if same_state r.state.run.lifecycle_state paused
    then (advance deps playing >> (modify withdrawn >> pure true)) r
    else if same_state r.state.run.lifecycle_state playing && r.state.pause_requested
    then (returned false, withdrawn r)
    else refuse r

unfoldable pub request_stop : Do (Unit {0})
request_stop r =
    if is_terminal r.state.run.lifecycle_state
    then refuse r
    else (returned tt, with_state (record r.state { stop_requested = true }) r)

-- The `requested_state` of `get_status`.
unfoldable pub requested_state : RunState → Option LifecycleState
requested_state s =
    if s.pause_requested then some paused else if s.stop_requested then some finished else none
