-- ===== src/Runner/Play.antt =====
-- run/runner.py: the play loop, from turn boundary to turn boundary.
pub mod Recorded
pub mod Rounds
use civ_sim_taskify.Prelude.{
  ℕ, zero, suc, Bool, true, false, not, Option, none, some, List, [], ◌∷◌, if◌then◌else◌,
}
use civ_sim_taskify.Models.Run.{
  Run, LifecycleState, playing, paused, StopResolution, operator_stop, same_state, is_terminal,
}
use civ_sim_taskify.Models.Event.{RunEvent, lifecycle_transition, no_detail}
use civ_sim_taskify.Stop.{StopDecision, evaluate_stop}
use civ_sim_taskify.Resilience.Recovery.{World, write_run_event, event}
use civ_sim_taskify.Run.Actions.{Outcome, failed, returned, pure, fail, ◌>>=◌, ◌>>◌}
use civ_sim_taskify.Turn.State.{Harness, TurnFailure, TurnCycleOutcome}
use civ_sim_taskify.Turn.Cycle.{run_turn_cycle}
use civ_sim_taskify.Runner.State.{
  RunState, Runner, Request, pause, resume, stop, RunnerDependencies, PlayFailure, failing,
  still_playing, Do, with_state, with_run, with_store, advance, finish,
}
use civ_sim_taskify.Runner.Failures.{is_caught, noted, handle_run_failure}

-- `(state.current_turn or 0) + 1`
abbrev pub next_turn : Option ℕ → ℕ
next_turn none = 1
next_turn (some n) = suc n

-- What a command does to the flags of a run that plays; one that is refused does nothing.
abbrev pub received : Request → RunState → RunState
received pause s =
    if same_state s.run.lifecycle_state playing then record s { pause_requested = true } else s
received resume s =
    if same_state s.run.lifecycle_state playing then record s { pause_requested = false } else s
received stop s =
    if is_terminal s.run.lifecycle_state then s else record s { stop_requested = true }

abbrev pub all_received : List Request → RunState → RunState
all_received [] s = s
all_received (q ∷ qs) s = all_received qs (received q s)

module _ (deps : RunnerDependencies) where
  -- `_coincident_event`, for each of them.
  abbrev pub with_coincident : ℕ → List StopResolution → Runner → Runner
  with_coincident turn [] r = r
  with_coincident turn (c ∷ cs) r = with_coincident turn cs (
      with_store
        (write_run_event
          (event r.state.run.run_id (some turn) (deps.clock r.harness.deeds 2) lifecycle_transition)
          r.harness.store)
        r)

  -- Whether the loop goes on.
  abbrev pub resolved : Option StopResolution → Do Bool
  resolved none = pure true
  resolved (some s) = finish deps s >> pure false

  abbrev pub after_turn : ℕ → TurnCycleOutcome → Do Bool
  after_turn turn o r =
      let played = with_run o.run r in
      let d = evaluate_stop deps.stop_condition (deps.evaluate_stop_facts r.harness.deeds turn) in
      resolved d.resolution (with_coincident turn d.coincident played)

  abbrev pub of_turn :
      RunState
      → Outcome TurnFailure TurnCycleOutcome × Harness
      → Outcome PlayFailure TurnCycleOutcome × Runner
  of_turn s (failed f, h) = (
    failed (failing f),
    record { state = all_received (deps.requests_during h.deeds) s; harness = h },
  )
  of_turn s (returned o, h) =
      (returned o, record { state = all_received (deps.requests_during h.deeds) s; harness = h })

  abbrev pub at_turn : ℕ → Runner → Runner
  at_turn turn r = with_state (record r.state { current_turn = some turn }) r

  abbrev pub run_turn : ℕ → Do TurnCycleOutcome
  run_turn turn r =
      of_turn r.state (
        run_turn_cycle (deps.build_turn_dependencies turn) deps.attempts_fuel r.state.run r.harness)

  -- One round of the loop.
  unfoldable pub play_turn : Do Bool
  unfolding advance finish run_turn_cycle evaluate_stop
  play_turn r =
      if r.state.stop_requested
      then (finish deps operator_stop >> pure false) r
      else if r.state.pause_requested
      then (advance deps paused >> pure false) r
      else let turn = next_turn r.state.current_turn in
        (run_turn turn >>= after_turn turn) (at_turn turn r)

  abbrev pub unless_over : Do (Unit {0}) → Bool → Do (Unit {0})
  unless_over rest true = rest
  unless_over rest false = pure tt

  -- `while True`, on fuel for the turns.
  unfoldable pub play_on : ℕ → Do (Unit {0})
  unfolding play_turn
  play_on zero = fail still_playing
  play_on (suc n) = play_turn >>= unless_over (play_on n)

  -- `_record_unexpected_failure`, and the exception again.
  abbrev pub record_unexpected_failure : TurnFailure → Do (Unit {0})
  record_unexpected_failure f r = (failed (failing f), noted deps f r)

  abbrev pub or_unexpected :
      Outcome PlayFailure (Unit {0}) × Runner → Outcome PlayFailure (Unit {0}) × Runner
  or_unexpected (failed (failing f), r) = record_unexpected_failure f r
  or_unexpected (failed still_playing, r) = (failed still_playing, r)
  or_unexpected (returned u, r) = (returned u, r)

  abbrev pub handled :
      Outcome PlayFailure (Unit {0}) × Runner → Outcome PlayFailure (Unit {0}) × Runner
  handled (failed (failing f), r) =
      if is_caught f
      then or_unexpected (handle_run_failure deps f r)
      else record_unexpected_failure f r
  handled (failed still_playing, r) = (failed still_playing, r)
  handled (returned u, r) = (returned u, r)

  -- `_play_run`
  unfoldable pub play_run : ℕ → Do (Unit {0})
  unfolding play_on handle_run_failure
  play_run fuel r = handled (play_on fuel r)
