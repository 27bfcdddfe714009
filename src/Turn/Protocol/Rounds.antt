-- ===== src/Turn/Protocol/Rounds.antt =====
-- The loop over the attempts of a turn: what follows each of them, and the whole of it.
use civ_sim_taskify.Prelude.{ℕ, zero, suc, String, ◌≡◌, refl, true, List, [], ◌∷◌}
use civ_sim_taskify.Models.Run.{Run, Timestamp}
use civ_sim_taskify.Models.Event.{RunEvent}
use civ_sim_taskify.Resilience.Recovery.{SavePoint}
use civ_sim_taskify.Store.Guard.{TurnCycle}
use civ_sim_taskify.Run.Actions.{failed, returned, and_then, Ends, Ends-bind, only_if}
use civ_sim_taskify.Run.LoopState.{
  DecisionStepBundle, mid_turn_observation_failure, unknown_screen_encountered, out_of_fuel,
}
use civ_sim_taskify.Run.LoopState
use civ_sim_taskify.Run.Actions
use civ_sim_taskify.Run.Attempt.{Attempt, Unfinished}
use civ_sim_taskify.Run.DecisionLoop.Starts.{start}
use civ_sim_taskify.Turn.State.{
  Deed, recovering, wrote_cycle, Harness, TurnCycleDependencies, TurnFailure, Do, tell,
  write_events,
}
use civ_sim_taskify.Turn.Attempts.{
  Played, by_itself, cancelled, Finished, is_nonempty, build_record, run_decision_loop_watched,
  abandoned_record, write_abandoned, persist_abandoned_attempt, recover_now, recover_from_error_now,
  still_alive, on_played, attempts,
}
use civ_sim_taskify.Turn.Protocol.{
  ready, over, mending, IsGivenUp, gives_up, recovers, recovers_written, replays, Follows,
}
use civ_sim_taskify.Turn.Protocol.Starts.{IsNext, Somewhere, write_events-Ends, lift_then}
use civ_sim_taskify.Turn.Protocol.Replays.{
  LoopOf, At, IsOver, watched-Ends, of_recovery-Ends, still_alive-Ends,
}

module _ (deps : TurnCycleDependencies) (h0 : Harness) (save : SavePoint)
    (own : IsNext h0 save) where
  abbrev X : TurnFailure → Harness → Type 0
  X = Somewhere deps h0

  -- An attempt that ended, played by a context that was built for it.
  abbrev pub IsFinished : Finished → Harness → Type 0
  IsFinished f h =
      (before : List Deed) × At deps h0 save own (over f.attempt_index f.turn_cycle_id before) h
      × (Attempt (deps.build_loop_context before f.turn_cycle_id)
          (start (deps.build_loop_context before f.turn_cycle_id)) 1 f.result.steps f.result.outcome
          f.result.final_no_progress_streak)

  -- A recovery starts after an attempt, written or not.
  recover_now-Ends :
      (i : ℕ) (run : Run) (h : Harness)
      → At deps h0 save own (mending i) (record h { deeds = recovering save ∷ h.deeds })
      → Ends X (λ _ s. At deps h0 save own (mending i) s) (recover_now deps run save h)
  unfolding recover_now
  recover_now-Ends i run h f =
      of_recovery-Ends deps h0 save own i _ (record h { deeds = recovering save ∷ h.deeds }) f

  recover_from_error_now-Ends :
      (i : ℕ) (run : Run) (h : Harness)
      → At deps h0 save own (mending i) (record h { deeds = recovering save ∷ h.deeds })
      → Ends X (λ _ s. At deps h0 save own (mending i) s) (recover_from_error_now deps run save h)
  unfolding recover_from_error_now
  recover_from_error_now-Ends i run h f =
      of_recovery-Ends deps h0 save own i _ (record h { deeds = recovering save ∷ h.deeds }) f

  -- After an attempt that is given up: what the recovery may start from.
  abbrev MayRecover : ℕ → Harness → Type 0
  MayRecover i h = At deps h0 save own (mending i) (record h { deeds = recovering save ∷ h.deeds })

  persist-Ends :
      (i : ℕ) (id : String) (before : List Deed) (tc : TurnCycle) (steps : List DecisionStepBundle)
      (events : List RunEvent) (h : Harness)
      → At deps h0 save own (over i id before) h
      → IsGivenUp deps save i id before tc steps
      → Ends X (λ _ s. MayRecover i s) (persist_abandoned_attempt deps tc steps events h)
  unfolding persist_abandoned_attempt
  persist-Ends i id before tc steps events h f g =
      lift_then X (λ _ s. MayRecover i s) (build_record tc steps)
        (λ _. write_abandoned deps tc steps events) h (λ e. (save, own, over i id before, f))
        (λ _ _.
          lift_then X (λ _ s. MayRecover i s) (deps.write_turn_cycle h.deeds tc)
            (λ _. Actions.◌>>◌ (tell (wrote_cycle tc steps)) (write_events events)) h
            (λ e. (save, own, over i id before, f))
            (λ _ _.
              write_events-Ends X
                (λ ds. Follows deps save h0.deeds (mending i) (recovering save ∷ ds)) events
                (record h { deeds = wrote_cycle tc steps ∷ h.deeds })
                (recovers_written (gives_up f g))))

  -- What the next attempt does with the index that follows.
  abbrev Continues : (ℕ → Run → Do Finished) → Type 0
  Continues next =
      (i : ℕ) (run : Run) (s : Harness)
      → At deps h0 save own (ready i) s
      → Ends X IsFinished (next i run s)

  on_mid_turn-Ends :
      (next : ℕ → Run → Do Finished)
      → Continues next
      → (i : ℕ) (run : Run) (h : Harness) → MayRecover i h
      → Ends X IsFinished (Actions.◌>>=◌ (recover_from_error_now deps run save) (next (suc i)) h)
  on_mid_turn-Ends next goes i run h f =
      Ends-bind X (λ _ s. At deps h0 save own (mending i) s) IsFinished
        (recover_from_error_now deps run save h) _ (recover_from_error_now-Ends i run h f)
        (λ back s g. goes (suc i) back s (replays g))

  IsGivenUp-record :
      (i : ℕ) (before : List Deed) (id : String) (steps : List DecisionStepBundle) (k : ℕ)
      (started ended : Timestamp)
      → is_nonempty steps ≡ true
      → Unfinished
          (deps.build_loop_context before id)
          (start (deps.build_loop_context before id))
          1
          steps
          k
      → IsGivenUp deps save i id before
          (abandoned_record deps id i save steps k started ended)
          steps
  IsGivenUp-record i before id steps k started ended some_step u = record {
    of_turn = record {
      of_id = refl;
      of_run = refl;
      of_number = refl;
      of_attempt = refl;
      of_save = refl;
      counted = refl;
      degraded = refl;
    };
    never_authoritative = refl;
    as_abandoned = refl;
    some_step = some_step;
    unfinished = u;
  }

  on_played-Ends :
      (next : ℕ → Run → Do Finished)
      → Continues next
      → (i : ℕ) (run : Run) (before : List Deed) (id : String) (started : Timestamp) (p : Played)
        (h : Harness)
      → At deps h0 save own (over i id before) h
      → LoopOf deps h0 before id p
      → Ends X IsFinished (on_played deps save next i run id started p h)
  on_played-Ends next goes i run before id started (by_itself (returned r)) h f (s, a) =
      (before, f, a)
  on_played-Ends next goes i run before id started (cancelled fault) h f l =
      Ends-bind X (λ _ s. At deps h0 save own (mending i) s) IsFinished
        (recover_now deps run save h) _ (recover_now-Ends i run h (recovers f))
        (λ back s g.
          Ends-bind X (λ _ v. At deps h0 save own (mending i) v) IsFinished
            (still_alive deps deps.detection s) _ (still_alive-Ends deps h0 save own i s g)
            (λ _ v k. goes (suc i) back v (replays k)))
  on_played-Ends next goes i run before id started
        (by_itself (failed (mid_turn_observation_failure [] events k))) h f (s, u) =
      on_mid_turn-Ends next goes i run h (recovers f)
  on_played-Ends next goes i run before id started
        (by_itself (failed (mid_turn_observation_failure (b ∷ bs) events k))) h f (s, u) =
      Ends-bind X (λ _ v. MayRecover i v) IsFinished
        (persist_abandoned_attempt deps
          (abandoned_record deps id i save (b ∷ bs) k started (deps.clock h.deeds 4)) (b ∷ bs)
          events h)
        _
        (persist-Ends i id before _ (b ∷ bs) events h f
          (IsGivenUp-record i before id (b ∷ bs) k started (deps.clock h.deeds 4) refl u))
        (λ _ v g. on_mid_turn-Ends next goes i run v g)
  on_played-Ends next goes i run before id started (by_itself (failed (LoopState.raised e))) h f l =
      (save, own, over i id before, f)
  on_played-Ends next goes i run before id started
        (by_itself (failed (unknown_screen_encountered e))) h f l =
      (save, own, over i id before, f)
  on_played-Ends next goes i run before id started (by_itself (failed (out_of_fuel steps))) h f l =
      (save, own, over i id before, f)

  pub attempts-Ends :
      (fuel i : ℕ) (run : Run) (h : Harness)
      → At deps h0 save own (ready i) h
      → Ends X IsFinished (attempts deps save fuel i run h)
  unfolding attempts
  attempts-Ends zero i run h f = (save, own, ready i, f)
  attempts-Ends (suc fuel) i run h f =
      let id = deps.new_cycle_id h.deeds in
      Ends-bind X (IsOver deps h0 save own i h.deeds id) IsFinished
        (run_decision_loop_watched deps (deps.build_loop_context h.deeds id) id h) _
        (watched-Ends deps h0 save own i h.deeds id h f refl f)
        (λ p s (g, l).
          on_played-Ends (attempts deps save fuel) (attempts-Ends fuel) i run h.deeds id
            (deps.clock h.deeds 5) p s g l)
