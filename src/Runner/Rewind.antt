-- ===== src/Runner/Rewind.antt =====
-- run/runner.py: `resume_from`, which takes a run back to the save of a recorded turn. The per-turn
-- collaborators are assembled without an exception.
pub mod Table
pub mod Marks
pub mod Loop
pub mod Keeps
pub mod Strands
use Prim.Native.Nat.{max}
use civ_sim_taskify.Prelude.{
  ℕ, zero, suc, ◌+◌, ◌-◌, Bool, true, false, Option, none, some, List, [], ◌∷◌, map, ltb,
  if◌then◌else◌,
}
use civ_sim_taskify.Errors.{Error, Result, ok, err, save_addressing_error}
use civ_sim_taskify.Models.Run.{
  Run, LifecycleState, playing, paused, interrupted, resuming, is_terminal, same_state,
}
use civ_sim_taskify.Models.Event.{resumed}
use civ_sim_taskify.Store.Guard.{TurnCycle}
use civ_sim_taskify.Store.Completeness.{highest}
use civ_sim_taskify.Saves.Addressing.{require_available_save_point}
use civ_sim_taskify.Resilience.Recovery.{SavePoint, World, write_run_event, event}
use civ_sim_taskify.Run.Actions.{Action, Outcome, failed, returned, and_then}
use civ_sim_taskify.Turn.State.{Harness, TurnFailure, raised}
use civ_sim_taskify.Turn.Attempts.{recover_now}
use civ_sim_taskify.Runner.State.{
  Runner, RunnerDependencies, PlayFailure, failing, Do, with_state, with_store, refreshed, advance,
}
use Table.{get_turn_cycle, mark_turn_superseded}

-- The runner, and the attempts that the store has of the run.
pub record Rewinding : Type 0 where
  pub runner : Runner
  pub turn_cycles : List TurnCycle

-- `ResumeFromRefused`, `ResumeFromFailed` and what is raised as it is.
pub data ResumeFailure : Type 0 where
  refused resume_failed : ResumeFailure
  raising : PlayFailure → ResumeFailure

-- `through_turn or from_turn`
abbrev pub or_turn : Option ℕ → ℕ → ℕ
or_turn none turn = turn
or_turn (some zero) turn = turn
or_turn (some (suc n)) turn = suc n

abbrev pub highest_save : List SavePoint → ℕ → ℕ
highest_save [] turn = turn
highest_save (s ∷ ss) turn = highest (map (λ z. z.turn_number) (s ∷ ss))

abbrev pub last_replayed_turn : List SavePoint → ℕ → Option ℕ → ℕ
last_replayed_turn saves from_turn through_turn =
    max (max (highest_save saves from_turn) (or_turn through_turn from_turn)) from_turn

module _ (parent_turns : List ℕ) where
  abbrev pub kept :
      List TurnCycle → Result (List TurnCycle) → Outcome Error (Unit {0}) × List TurnCycle
  kept tcs (err e) = (failed e, tcs)
  kept tcs (ok new) = (returned tt, new)

  abbrev pub of_record : ℕ → Option TurnCycle → Action (List TurnCycle) Error (Unit {0})
  of_record turn none tcs = (returned tt, tcs)
  of_record turn (some tc) tcs =
      kept tcs (mark_turn_superseded parent_turns turn tc.attempt_index tcs)

  -- The loop over `range(from_turn, last_replayed_turn + 1)`, by the number of turns that are left.
  unfoldable pub supersede_turns : ℕ → ℕ → Action (List TurnCycle) Error (Unit {0})
  unfolding get_turn_cycle mark_turn_superseded
  supersede_turns turn zero tcs = (returned tt, tcs)
  supersede_turns turn (suc left) tcs =
      and_then (of_record turn (get_turn_cycle tcs turn) tcs) (λ _. supersede_turns (suc turn) left)

  -- `_supersede_replayed_turns`
  unfoldable pub supersede_replayed_turns :
      List SavePoint → ℕ → Option ℕ → Action (List TurnCycle) Error (Unit {0})
  unfolding supersede_turns
  supersede_replayed_turns saves from_turn through_turn =
      supersede_turns from_turn (last_replayed_turn saves from_turn through_turn + 1 - from_turn)

-- `_require_resumable`
unfoldable pub require_resumable : LifecycleState → Bool
require_resumable paused = true
require_resumable interrupted = true
require_resumable resuming = true
require_resumable s = false

-- `except SaveAddressingError`
abbrev pub resume_error : TurnFailure → ResumeFailure
resume_error (raised save_addressing_error) = raising (failing (raised save_addressing_error))
resume_error f = resume_failed

-- The save points that the store lists, by what was written, and the turns that the branches of the
-- run start from.
module _ (deps : RunnerDependencies) (list_save_points : List SavePoint → List SavePoint)
    (parent_turns : List ℕ) where
  -- `_note_resume_failure`, with the error that was caught in place of its own name.
  unfoldable pub note_resume_failure : TurnFailure → Runner → Runner
  note_resume_failure f r =
      with_state
        (record r.state {
          last_error = some (f, deps.clock r.harness.deeds 1);
          run = r.harness.store.run;
        })
        r

  abbrev pub played_again : Do (Unit {0})
  played_again r =
      if same_state r.state.run.lifecycle_state paused
      then advance deps playing r
      else (returned tt, r)

  -- The end of the command: the lineage event, the completeness and the turn to go on from.
  abbrev pub at_turn : ℕ → Runner → Runner
  at_turn turn r =
      let e = event r.state.run.run_id (some turn) (deps.clock r.harness.deeds 3) resumed in
      let v = refreshed deps (with_store (write_run_event e r.harness.store) r) in
      with_state (record v.state { current_turn = some (turn - 1); pause_requested = false }) v

  abbrev pub on_superseded :
      ℕ
      → Runner
      → Outcome Error (Unit {0}) × List TurnCycle
      → Outcome ResumeFailure (Unit {0}) × Rewinding
  on_superseded turn r (failed e, tcs) =
      (failed resume_failed, record { runner = r; turn_cycles = tcs })
  on_superseded turn r (returned u, tcs) =
      (returned tt, record { runner = at_turn turn r; turn_cycles = tcs })

  abbrev pub on_reloaded :
      ℕ
      → Option ℕ
      → Rewinding
      → Outcome TurnFailure Run × Harness
      → Outcome ResumeFailure (Unit {0}) × Rewinding
  on_reloaded turn through s (failed f, h) = (
    failed (resume_error f),
    record s { runner = note_resume_failure f (record s.runner { harness = h }) },
  )
  on_reloaded turn through s (returned run, h) =
      on_superseded turn (record { state = record s.runner.state { run = run }; harness = h })
        (supersede_replayed_turns parent_turns (list_save_points h.store.save_points) turn through
          s.turn_cycles)

  abbrev pub on_unpaused :
      ℕ
      → SavePoint
      → Rewinding
      → Outcome PlayFailure (Unit {0}) × Runner
      → Outcome ResumeFailure (Unit {0}) × Rewinding
  on_unpaused turn save s (failed f, r) = (failed (raising f), record s { runner = r })
  on_unpaused turn save s (returned u, r) =
      on_reloaded turn s.runner.state.current_turn (record s { runner = r })
        (recover_now (deps.build_turn_dependencies turn) r.state.run save r.harness)

  abbrev pub on_save :
      ℕ → Result SavePoint → Rewinding → Outcome ResumeFailure (Unit {0}) × Rewinding
  on_save turn (err e) s = (failed (raising (failing (raised e))), s)
  on_save turn (ok save) s = on_unpaused turn save s (played_again s.runner)

  -- `resume_from`; the play loop is scheduled again when it returns.
  unfoldable pub resume_from : ℕ → Action Rewinding ResumeFailure (Unit {0})
  unfolding require_resumable require_available_save_point advance recover_now
      supersede_replayed_turns note_resume_failure write_run_event
  resume_from turn s =
      if ltb turn 1
      then (failed refused, s)
      else if require_resumable s.runner.state.run.lifecycle_state
      then on_save turn
          (require_available_save_point (list_save_points s.runner.harness.store.save_points) turn)
          s
      else (failed refused, s)
