-- ===== src/Turn/Protocol/Seals.antt =====
-- The record of the attempt that ended the turn, the end of the turn, and the whole turn.
use civ_sim_taskify.Prelude.{ℕ, String, ◌≡◌, refl, sym, ap, subst, ◌⊎◌, inl, inr, List, [], ◌∷◌}
use civ_sim_taskify.Errors.{ok}
use civ_sim_taskify.Models.Run.{Run}
use civ_sim_taskify.Models.Value.{null, end}
use civ_sim_taskify.Models.Turn.{
  Observation, TurnOutcome, ended_by_agent, ended_on_no_progress, abandoned,
}
use civ_sim_taskify.NoProgress.{NoProgressTracker}
use civ_sim_taskify.Resilience.Recovery.{SavePoint}
use civ_sim_taskify.Store.Guard.{TurnCycle, TurnPersistedToken}
use civ_sim_taskify.Act.Registry.{ParityDeclaration, in_game}
use civ_sim_taskify.Act.Dispatch.{
  DispatchOutcome, authorized, refused, ExecutionOutcome, applied, rejected, partially_applied,
  dispatch_action,
}
use civ_sim_taskify.Act.Verify.{ExecutionVerification, verify_execution}
use civ_sim_taskify.Run.Actions.{Outcome, failed, returned, and_then, Ends, Ends-bind}
use civ_sim_taskify.Run.Actions
use civ_sim_taskify.Run.LoopState.{DecisionLoopContext, DecisionStepBundle}
use civ_sim_taskify.Run.LoopState
use civ_sim_taskify.Run.Attempt.{Attempt, by_agent, by_backstop, goes_on}
use civ_sim_taskify.Store.Guard.Order.{write_then_advance_makes}
use civ_sim_taskify.Turn.State.{
  Deed, wrote_cycle, looked, executed, Harness, TurnCycleDependencies, TurnCycleOutcome,
  TurnFailure, Do, tell, write_events,
}
use civ_sim_taskify.Turn.Attempts.{Finished, build_record, attempts}
use civ_sim_taskify.Turn.Backstop.{
  end_turn_declaration_id, observed, fresh_observation, after_end_turn, confirm, judge_end,
  read_back, on_dispatch, dispatch_end, end_turn_in, dispatch_backstop_end_turn,
}
use civ_sim_taskify.Turn.Quicksave.{take_quicksave}
use civ_sim_taskify.Turn.Cycle.{
  detect_between_turns, final_record, end_turn, guarded, seal, refresh, events_and_end,
  persist_and_end, run_turn_cycle,
}
use civ_sim_taskify.Turn.Protocol.{
  over, sealed, asking, ending, reading, IsFinal, Follows, begins, seals, looks, ends, reads,
  IsConfirmed,
}
use civ_sim_taskify.Turn.Protocol.Starts.{
  IsNext, Somewhere, Begun, Taken, lift_then, write_events-Ends, detect-Ends, take_quicksave-Ends,
}
use civ_sim_taskify.Turn.Protocol.Rounds.{IsFinished, attempts-Ends}

-- An attempt is ended by the agent or by the backstop.
Attempt-outcome :
    (ctx : DecisionLoopContext) {t : NoProgressTracker} {i : ℕ} {bs : List DecisionStepBundle}
    {o : TurnOutcome} {k : ℕ}
    → Attempt ctx t i bs o k
    → (o ≡ ended_by_agent) ⊎ (o ≡ ended_on_no_progress)
Attempt-outcome ctx (by_agent s e) = inl refl
Attempt-outcome ctx (by_backstop s e t) = inr refl
Attempt-outcome ctx (goes_on s e t a) = Attempt-outcome ctx a

module _ (deps : TurnCycleDependencies) (h0 : Harness) where
  abbrev X : TurnFailure → Harness → Type 0
  X = Somewhere deps h0

  module _ (save : SavePoint) (own : IsNext h0 save) (tc : TurnCycle) where
    -- The turn has ended as its record says: by the agent's own action, or by the harness, and then
    -- the game has confirmed it.
    abbrev pub HasEnded : Harness → Type 0
    HasEnded h =
        ((tc.outcome ≡ ended_by_agent) × Follows deps save h0.deeds (sealed tc) h.deeds)
        ⊎ ((tc.outcome ≡ ended_on_no_progress)
            × Follows deps save h0.deeds (reading tc) h.deeds
            × ((before : List Deed) × (id : String) × (c : IsConfirmed
                  (deps.build_loop_context before id))
                × (h.deeds ≡ looked ∷ executed c.declaration.declaration_id ∷ looked ∷ before)))

    module _ (trip : tc.outcome ≡ ended_on_no_progress) (before : List Deed) (id : String) where
      abbrev ctx : DecisionLoopContext
      ctx = deps.build_loop_context before id

      confirm-Ends :
          (d : ParityDeclaration) (pre post : Observation) (v : ExecutionVerification) (h : Harness)
          → Follows deps save h0.deeds (reading tc) h.deeds
          → h.deeds ≡ looked ∷ executed d.declaration_id ∷ looked ∷ before
          → observed ctx [] ≡ ok pre
          → dispatch_action ctx.python ctx.catalog in_game end_turn_declaration_id pre null
            ≡ ok (authorized d)
          → observed ctx (after_end_turn ctx d) ≡ ok post
          → verify_execution ctx.python d pre post null
              (ctx.clock (LoopState.looked ∷ after_end_turn ctx d) 1)
            ≡ ok v
          → (o : ExecutionOutcome) → v.execution.outcome ≡ o
          → Ends X (λ _ s. HasEnded s) (confirm ctx id o h)
      confirm-Ends d pre post v h f at a b c e applied same = inr (
        trip,
        f,
        (
          before,
          id,
          record {
            declaration = d;
            pre = pre;
            post = post;
            at = ctx.clock (LoopState.looked ∷ after_end_turn ctx d) 1;
            verification = v;
            read_before = a;
            allowed = b;
            read_after = c;
            verified = e;
            as_applied = same;
          },
          at,
        ),
      )
      confirm-Ends d pre post v h f at a b c e rejected same = (save, own, reading tc, f)
      confirm-Ends d pre post v h f at a b c e partially_applied same = (save, own, reading tc, f)

      dispatched-Ends :
          (pre : Observation) (o : DispatchOutcome) (h : Harness)
          → Follows deps save h0.deeds (asking tc) h.deeds
          → h.deeds ≡ looked ∷ before
          → observed ctx [] ≡ ok pre
          → dispatch_action ctx.python ctx.catalog in_game end_turn_declaration_id pre null ≡ ok o
          → Ends X (λ _ s. HasEnded s) (on_dispatch ctx id pre o h)
      dispatched-Ends pre (refused r) h f at a b = (save, own, asking tc, f)
      dispatched-Ends pre (authorized d) h f at a b =
          let ran = record h { deeds = executed d.declaration_id ∷ h.deeds } in
          let back = record h { deeds = looked ∷ executed d.declaration_id ∷ h.deeds } in
          lift_then X (λ _ s. HasEnded s)
            (ctx.execute_action (LoopState.looked ∷ []) d.declaration_id end null)
            (λ _. read_back ctx id pre d) ran (λ e. (save, own, ending tc, ends d.declaration_id f))
            (λ _ _.
              unfold fresh_observation in
              lift_then X (λ _ s. HasEnded s) (observed ctx (after_end_turn ctx d))
                (judge_end ctx id pre d) back
                (λ e. (save, own, reading tc, reads (ends d.declaration_id f)))
                (λ post c.
                  lift_then X (λ _ s. HasEnded s)
                    (verify_execution ctx.python d pre post null
                      (ctx.clock (LoopState.looked ∷ after_end_turn ctx d) 1))
                    (λ v. confirm ctx id v.execution.outcome) back
                    (λ e. (save, own, reading tc, reads (ends d.declaration_id f)))
                    (λ v e.
                      confirm-Ends d pre post v back (reads (ends d.declaration_id f))
                        (ap (λ z. looked ∷ executed d.declaration_id ∷ z) at) a b c e
                        v.execution.outcome refl)))

      end_turn_in-Ends :
          (h : Harness)
          → Follows deps save h0.deeds (sealed tc) h.deeds
          → h.deeds ≡ before
          → Ends X (λ _ s. HasEnded s) (end_turn_in ctx id h)
      unfolding end_turn_in
      end_turn_in-Ends h f at =
          let asked = record h { deeds = looked ∷ h.deeds } in
          lift_then X (λ _ s. HasEnded s) (observed ctx []) (dispatch_end ctx id) asked
            (λ e. (save, own, asking tc, looks f trip))
            (λ pre a.
              lift_then X (λ _ s. HasEnded s)
                (dispatch_action ctx.python ctx.catalog in_game end_turn_declaration_id pre null)
                (on_dispatch ctx id pre) asked (λ e. (save, own, asking tc, looks f trip))
                (λ o b. dispatched-Ends pre o asked (looks f trip) (ap (λ z. looked ∷ z) at) a b))

    -- The coroutine behind the write.
    end_turn-Ends :
        (o : TurnOutcome) (token : TurnPersistedToken) (h : Harness)
        → tc.outcome ≡ o
        → (o ≡ ended_by_agent) ⊎ (o ≡ ended_on_no_progress)
        → Follows deps save h0.deeds (sealed tc) h.deeds
        → Ends X (λ _ s. HasEnded s) (end_turn deps o token h)
    unfolding end_turn dispatch_backstop_end_turn
    end_turn-Ends ended_by_agent token h same way f = inl (same, f)
    end_turn-Ends ended_on_no_progress token h same way f =
        end_turn_in-Ends same h.deeds token.turn_cycle_id h f refl
    end_turn-Ends abandoned token h same (inl e) f = absurd (cc)
    end_turn-Ends abandoned token h same (inr e) f = absurd (cc)

    -- The guard hands back the coroutine only if the store has acknowledged the write.
    seal-Ends :
        (i : ℕ) (id : String) (before : List Deed) (steps : List DecisionStepBundle) (h : Harness)
        → Follows deps save h0.deeds (over i id before) h.deeds
        → IsFinal deps save i id before tc steps
        → Ends X (λ _ s. HasEnded s) (seal deps tc steps h)
    unfolding seal
    seal-Ends i id before steps h f final =
        let sealed_now = record h { deeds = wrote_cycle tc steps ∷ h.deeds } in
        lift_then X (λ _ s. HasEnded s) (guarded deps h.deeds tc)
          (λ ending. Actions.◌>>◌ (tell (wrote_cycle tc steps)) ending) h
          (λ e. (save, own, over i id before, f))
          (λ ending e.
            let (token, made, _) =
              write_then_advance_makes tc (end_turn deps tc.outcome) ending
                (deps.write_turn_cycle h.deeds) e in
            subst (λ (m : Do String). Ends X (λ _ s. HasEnded s) (m sealed_now)) (sym made)
              (end_turn-Ends tc.outcome token sealed_now refl
                (Attempt-outcome (deps.build_loop_context before id) final.attempt)
                (seals f final)))

  -- The whole turn: it has ended as the outcome says.
  abbrev pub Turned : TurnCycleOutcome → Harness → Type 0
  Turned o h =
      (save : SavePoint) × (own : IsNext h0 save) × (tc : TurnCycle) × (o.outcome ≡ tc.outcome)
      × HasEnded save own tc h

  persist_and_end-Ends :
      (save : SavePoint) (own : IsNext h0 save) (f : Finished) (h : Harness)
      → IsFinished deps h0 save own f h
      → Ends X Turned (persist_and_end deps save f h)
  unfolding persist_and_end refresh
  persist_and_end-Ends save own f h (before, over_now, a) =
      let steps = f.result.steps in
      let tc = final_record deps save f h.deeds in
      let stays = Follows deps save h0.deeds (over f.attempt_index f.turn_cycle_id before) in
      lift_then X Turned (build_record tc steps) (λ _. events_and_end deps tc f) h
        (λ e. (save, own, over f.attempt_index f.turn_cycle_id before, over_now))
        (λ _ _.
          Ends-bind X (λ _ s. stays s.deeds) Turned (write_events f.result.events h) _
            (write_events-Ends X stays f.result.events h over_now)
            (λ _ s g.
              Ends-bind X (λ _ v. HasEnded save own tc v) Turned (seal deps tc steps s) _
                (seal-Ends save own tc f.attempt_index f.turn_cycle_id before steps s g (record {
                  of_turn = record {
                    of_id = refl;
                    of_run = refl;
                    of_number = refl;
                    of_attempt = refl;
                    of_save = refl;
                    counted = refl;
                    degraded = refl;
                  };
                  authoritative = refl;
                  attempt = a;
                }))
                (λ id v e. (save, own, tc, refl, e))))

module _ (deps : TurnCycleDependencies) (fuel : ℕ) (run : Run) (h : Harness) where
  -- However a turn ends, what was done for it follows the protocol of a turn, over one save point:
  -- the next of the store, with the name of the game's save. Nothing is played before the game was
  -- asked for a save of that name and its file was found with one size in both of its reads, every
  -- replay comes after a recovery from that save point, which comes after an attempt whose steps, if
  -- it had any that were handed over and written, are those of an unfinished attempt under a record
  -- of that save point that is not authoritative, and nothing is played after an authoritative
  -- record, which is of that save point and of a whole attempt. A turn that returns ended as the
  -- outcome says: by the agent, with that record the last thing done, or on no progress, and then
  -- the last three things done, after the record was written, are a read, an action and a read by
  -- the harness: that action was authorized on what was read before it, and what was read after it
  -- confirmed it as applied.
  pub run_turn_cycle-Follows :
      Ends (Somewhere deps h) (Turned deps h) (run_turn_cycle deps fuel run h)
  unfolding run_turn_cycle
  run_turn_cycle-Follows =
      let X = Somewhere deps h in
      Ends-bind X (Begun deps h) (Turned deps h) (detect_between_turns deps h) _
        (detect-Ends deps h (λ save. begins))
        (λ _ s (q, same).
          Ends-bind X (Taken deps h) (Turned deps h) (take_quicksave deps s) _
            (take_quicksave-Ends deps h s q same)
            (λ save v (own, t).
              Ends-bind X (IsFinished deps h save own) (Turned deps h)
                (attempts deps save fuel deps.attempt_index_base run v) _
                (attempts-Ends deps h save own fuel deps.attempt_index_base run v t)
                (λ f z g. persist_and_end-Ends deps h save own f z g)))
