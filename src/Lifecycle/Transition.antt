-- ===== src/Lifecycle/Transition.antt =====
-- What `transition` does on every branch.
use civ_sim_taskify.Prelude.{ℕ, ◌≡◌, ◌≢◌, true, false, ◌↔◌, Option, arith}
use civ_sim_taskify.Errors.{ok, err, harness_error, validation_error}
use civ_sim_taskify.Models.Run.{
  Timestamp, LifecycleState, preparing, playing, finished, StopResolution, Run, validate, IsValid,
  is_some, is_terminal,
}
use civ_sim_taskify.Models.Event.{RunEvent}
use civ_sim_taskify.Lifecycle.{transition, transition_event, updated, is_legal_transition, or_else}
use civ_sim_taskify.Lifecycle.Graph.{Edge, Edge-of_legal, legal_iff_Edge}

-- A stop resolution is given only on the way into a terminal state, and always into `finished`.
pub record IsResolved (to : LifecycleState) (stop : Option StopResolution) : Type 0 where
  pub only_terminal : is_some stop ≡ true → is_terminal to ≡ true
  pub finished_needs : to ≡ finished → is_some stop ≡ true

module _ (run : Run) (to : LifecycleState) (at : Timestamp) (turn step : Option ℕ)
    (stop : Option StopResolution) where
  -- Whatever run it is given, a run that `transition` returns satisfies the validator's conditions.
  pub transition-IsValid :
      {r : Run} {e : RunEvent} → transition run to at turn step stop ≡ ok (r, e) → IsValid r
  unfolding transition validate updated
  transition-IsValid h = ground arith

  transition-ok :
      IsValid run
      → is_legal_transition run.lifecycle_state to ≡ true
      → IsResolved to stop
      → transition run to at turn step stop
        ≡ ok (updated run to at stop, transition_event run to at turn step)
  unfolding transition validate updated is_legal_transition
  transition-ok v e r = ground arith

  ok-transition :
      {o : Run × RunEvent}
      → IsValid run
      → transition run to at turn step stop ≡ ok o
      → (is_legal_transition run.lifecycle_state to ≡ true) × IsResolved to stop
  unfolding transition validate updated is_legal_transition
  ok-transition v h = ground arith

  -- From a valid run `transition` returns the updated run and the event of the move exactly when the
  -- diagram has the edge and the stop resolution is given where it must be and only where it may be.
  pub transition-eq-ok_iff :
      IsValid run
      → (transition run to at turn step stop
          ≡ ok (updated run to at stop, transition_event run to at turn step))
        ↔ (Edge run.lifecycle_state to × IsResolved to stop)
  transition-eq-ok_iff v = (
    λ h. let (legal, fits) = ok-transition v h in (Edge-of_legal _ _ legal, fits),
    λ p. transition-ok v ((legal_iff_Edge _ _).1 p.0) p.1,
  )

  -- From a valid run, an edge that is not legal raises `HarnessError`, so does a stop resolution
  -- given on the way to a state that is not terminal, and the model's own validator refuses only a
  -- move to `finished` with no stop resolution.
  pub transition_errors :
      IsValid run
      → (is_legal_transition run.lifecycle_state to ≡ false
          → transition run to at turn step stop ≡ err harness_error)
        × (is_some stop ≡ true
            → is_terminal to ≡ false
            → transition run to at turn step stop ≡ err harness_error)
        × (transition run to at turn step stop ≡ err validation_error
            → (to ≡ finished) × (is_some stop ≡ false))
  unfolding transition validate updated is_legal_transition
  transition_errors v = (λ h. ground arith, λ h k. ground arith, λ h. ground arith)

  -- The times: a run is stamped as started when it first plays and as ended when it enters a
  -- terminal state, an earlier stamp is never overwritten, and no other transition touches either.
  pub transition_stamps :
      {r : Run} {e : RunEvent}
      → transition run to at turn step stop ≡ ok (r, e)
      → (is_terminal to ≡ true → r.ended_at ≡ or_else run.ended_at at)
        × (is_terminal to ≡ false → r.ended_at ≡ run.ended_at)
        × (run.lifecycle_state ≡ preparing
            → to ≡ playing
            → r.started_at ≡ or_else run.started_at at)
        × (run.lifecycle_state ≢ preparing → r.started_at ≡ run.started_at)
        × (r.archived_at ≡ run.archived_at)
        × (r.run_id ≡ run.run_id)
        × (e.run_id ≡ run.run_id)
  unfolding transition validate updated is_legal_transition transition_event
  transition_stamps h = ground arith
