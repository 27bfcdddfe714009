-- ===== src/Runner/Rewind/Keeps.antt =====
-- What a rewind does to the record of the run.
use civ_sim_taskify.Prelude.{
  ℕ, ◌+◌, ◌-◌, ◌≤◌, ◌≡◌, refl, false, ◌⊎◌, inl, inr, Bool-cases, none, List, ltb, if_both, arith,
  tests,
}
use civ_sim_taskify.Errors.{Error, Result, ok, err}
use civ_sim_taskify.Models.Run.{Run}
use civ_sim_taskify.Store.Guard.{TurnCycle}
use civ_sim_taskify.Store.Completeness.{refresh_run_completeness}
use civ_sim_taskify.Resilience.Recovery.{SavePoint, write_run_event}
use civ_sim_taskify.Run.Actions.{Outcome, failed, returned}
use civ_sim_taskify.Turn.State.{Harness, TurnFailure}
use civ_sim_taskify.Turn.Attempts.Plays.{Plays, Any, recover_now-Plays}
use civ_sim_taskify.Turn.Cycle.{refresh}
use civ_sim_taskify.Run.Actions.{Ends}
use civ_sim_taskify.Runner.State.{Runner, RunnerDependencies, PlayFailure}
use civ_sim_taskify.Runner.Play.{next_turn}
use civ_sim_taskify.Runner.Rewind.{
  Rewinding, ResumeFailure, resume_failed, last_replayed_turn, require_resumable,
  supersede_replayed_turns, played_again, on_superseded, on_reloaded, on_unpaused, on_save,
  resume_from,
}
use civ_sim_taskify.Runner.Rewind.Table.{get_turn_cycle}
use civ_sim_taskify.Runner.Rewind.Marks.{IsTable, Kept, get-NoneAt}
use civ_sim_taskify.Runner.Rewind.Loop.{Supersedes, supersede_turns-Supersedes}

module _ (deps : RunnerDependencies) (list_save_points : List SavePoint → List SavePoint)
    (parent_turns : List ℕ) (turn : ℕ) (s : Rewinding) where
  abbrev last : Rewinding → ℕ
  last v =
      last_replayed_turn (list_save_points v.runner.harness.store.save_points) turn
        s.runner.state.current_turn

  -- What a rewind that returns leaves.
  pub record HasRewound (v : Rewinding) : Type 0 where
    pub plays : Plays v.runner.state.run
    pub next : next_turn v.runner.state.current_turn ≡ turn
    pub every_row : Kept turn s.turn_cycles v.turn_cycles
    pub replayable : (t : ℕ) → turn ≤ t → t ≤ last v → get_turn_cycle v.turn_cycles t ≡ none

  abbrev pub Rewinds : Outcome ResumeFailure (Unit {0}) × Rewinding → Type 0
  Rewinds (returned u, v) = HasRewound v
  Rewinds (failed f, v) =
      (v.turn_cycles ≡ s.turn_cycles)
      ⊎ ((f ≡ resume_failed) × Plays v.runner.state.run × Kept turn s.turn_cycles v.turn_cycles)

  module _ (low : ltb turn 1 ≡ false) where
    superseded-Rewinds :
        (r : Runner) (x : Outcome Error (Unit {0}) × List TurnCycle)
        → Plays r.state.run
        → Supersedes turn parent_turns turn
            (last_replayed_turn
                (list_save_points r.harness.store.save_points)
                turn
                s.runner.state.current_turn
              + 1
              - turn)
            s.turn_cycles
            x
        → Rewinds (on_superseded deps list_save_points parent_turns turn r x)
    unfolding refresh refresh_run_completeness write_run_event
    superseded-Rewinds r (failed e, new) p k = inr (refl, p, k)
    superseded-Rewinds r (returned u, new) p (k, gone) = record {
      plays = p;
      next = grind (arith, tests, low);
      every_row = k;
      replayable = λ t from_turn up. get-NoneAt t new (gone t from_turn (omega arith));
    }

    reloaded-Rewinds :
        (r : Runner) (x : Outcome TurnFailure Run × Harness)
        → IsTable s.turn_cycles
        → Ends Any (λ run _. Plays run) x
        → Rewinds (
            on_reloaded deps list_save_points parent_turns turn s.runner.state.current_turn
              (record s { runner = r })
              x)
    unfolding supersede_replayed_turns
    reloaded-Rewinds r (failed f, h) t p = inl refl
    reloaded-Rewinds r (returned run, h) t p =
        superseded-Rewinds _ _ p
          (supersede_turns-Supersedes turn parent_turns turn _ s.turn_cycles (omega arith) t)

    played-Rewinds :
        (save : SavePoint) (x : Outcome PlayFailure (Unit {0}) × Runner)
        → IsTable s.turn_cycles
        → Rewinds (on_unpaused deps list_save_points parent_turns turn save s x)
    played-Rewinds save (failed f, r) t = inl refl
    played-Rewinds save (returned u, r) t =
        reloaded-Rewinds r _ t
          (recover_now-Plays (deps.build_turn_dependencies turn) save r.state.run r.harness)

    save-Rewinds :
        (x : Result SavePoint)
        → IsTable s.turn_cycles
        → Rewinds (on_save deps list_save_points parent_turns turn x s)
    save-Rewinds (err e) t = inl refl
    save-Rewinds (ok save) t =
        played-Rewinds save (played_again deps list_save_points parent_turns s.runner) t

  -- Where no two recorded attempts of a turn have the same index and at most one of them is
  -- authoritative: whatever a rewind comes to, every recorded attempt stays on record, as it was, or
  -- superseded if it was an authoritative attempt of the turn or of a later one. A rewind that
  -- returns leaves no authoritative attempt from the turn on to the last one that was begun or saved,
  -- and the run plays, with that turn as the next. One that fails has superseded nothing, but for
  -- one whose save was loaded and that was refused while it superseded.
  pub resume_from-Rewinds :
      IsTable s.turn_cycles → Rewinds (resume_from deps list_save_points parent_turns turn s)
  unfolding resume_from
  resume_from-Rewinds t = elim (Bool-cases (ltb turn 1)) [
    | inl low ↦ rw low (inl refl)
    | inr high ↦ rw high (
        if_both Rewinds (require_resumable s.runner.state.run.lifecycle_state)
          (λ _. save-Rewinds high _ t) (λ _. inl refl))
  ]
