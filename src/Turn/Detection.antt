-- ===== src/Turn/Detection.antt =====
-- run/detection.py: whether the client is faulty, asked once and while an attempt is played.
pub mod Sustained
use civ_sim_taskify.Prelude.{
  ℕ, zero, suc, String, Bool, true, false, ◌||◌, Option, none, some, List, [], ◌∷◌, leb,
  if◌then◌else◌,
}
use civ_sim_taskify.Models.Run.{Timestamp}
use civ_sim_taskify.Models.Event.{
  RunEvent, RunEventType, crash_detected, hang_detected, unresponsive_detected,
}
use civ_sim_taskify.Resilience.Detector.{
  Moment, make_event, check_process_liveness, check_once, appended,
}
use civ_sim_taskify.Run.Actions.{Outcome, failed, returned, pure, fail, ◌>>=◌, ◌>>◌}
use civ_sim_taskify.Turn.State.{
  Deed, probed, passed, Harness, Pass, timed_out, broke, in_time, DetectionWatch,
  TurnCycleDependencies, TurnFailure, raised, Do, deeds_now, tell, write_events,
}

abbrev pub is_crash : RunEventType → Bool
is_crash crash_detected = true
is_crash t = false

abbrev pub is_hang : RunEventType → Bool
is_hang hang_detected = true
is_hang t = false

abbrev pub is_unresponsive : RunEventType → Bool
is_unresponsive unresponsive_detected = true
is_unresponsive t = false

abbrev pub any_event : (RunEventType → Bool) → List RunEvent → Bool
any_event test [] = false
any_event test (e ∷ es) = test e.event_type || any_event test es

-- The first of `RECOVERABLE_DETECTIONS` among the events.
unfoldable pub primary_fault : List RunEvent → Option RunEventType
primary_fault events =
    if any_event is_crash events
    then some crash_detected
    else if any_event is_hang events
    then some hang_detected
    else if any_event is_unresponsive events
    then some unresponsive_detected
    else none

-- The events that stopped an attempt, with the fault among them.
pub record Fault : Type 0 where
  pub events : List RunEvent
  pub primary : RunEventType

abbrev pub fault_of : List RunEvent → Option RunEventType → Option Fault
fault_of events none = none
fault_of events (some t) = some (record { events = events; primary = t })

module _ (deps : TurnCycleDependencies) where
  abbrev pub moment : List Deed → Moment
  moment ds = record {
    run_id = deps.run_id;
    occurred_at = deps.clock ds 0;
    turn_number = some deps.turn_number;
    step_index = none;
  }

  -- The events are written before they are reported.
  abbrev pub reported : List RunEvent → Do (List RunEvent)
  reported events = write_events events >> pure events

  abbrev pub alive_now : Option (List Deed → Bool) → Do (List RunEvent)
  alive_now none = pure []
  alive_now (some alive) = do
    ds ← deeds_now
    tell probed
    reported (appended (check_process_liveness (moment ds) (alive ds)) [])

  abbrev pub counted : ℕ → Do (Unit {0})
  counted n h = (returned tt, record h { pass_timeouts = n })

  -- `_on_pass_timed_out`
  unfoldable pub on_pass_timed_out : ℕ → Do (List RunEvent)
  on_pass_timed_out threshold h =
      if leb threshold (suc h.pass_timeouts)
      then (counted 0 >> reported (make_event (moment h.deeds) unresponsive_detected ∷ [])) h
      else (counted (suc h.pass_timeouts) >> pure []) h

  abbrev pub on_pass : ℕ → List Deed → Pass → Do (List RunEvent)
  on_pass threshold ds timed_out = on_pass_timed_out threshold
  on_pass threshold ds (broke e) = fail (raised e)
  on_pass threshold ds (in_time monitors) = counted 0 >> reported (check_once (moment ds) monitors)

  module _ (w : DetectionWatch) where
    unfoldable pub check_liveness_now : Do (List RunEvent)
    check_liveness_now = alive_now w.liveness

    abbrev pub unless_gone : List RunEvent → Do (List RunEvent)
    unless_gone (e ∷ es) = pure (e ∷ es)
    unless_gone [] = do
      ds ← deeds_now
      tell passed
      on_pass w.sustained_failure_threshold ds (w.aggregate ds)

    unfoldable pub check_now : Do (List RunEvent)
    unfolding check_liveness_now on_pass_timed_out
    check_now = check_liveness_now >>= unless_gone

    abbrev pub on_fault : Do (Option Fault) → Option Fault → Do (Option Fault)
    on_fault rest none = rest
    on_fault rest (some f) = pure (some f)

    -- A pass that raises is skipped, and so is one that found nothing to recover from.
    abbrev pub after_pass :
        Do (Option Fault)
        → Outcome TurnFailure (List RunEvent) × Harness
        → Outcome TurnFailure (Option Fault) × Harness
    after_pass rest (failed e, h) = rest h
    after_pass rest (returned events, h) = on_fault rest (fault_of events (primary_fault events)) h

    -- The passes of `run_under_detection` that begin before the attempt is done.
    unfoldable pub watch_passes : ℕ → Do (Option Fault)
    unfolding check_now primary_fault
    watch_passes zero h = (returned none, h)
    watch_passes (suc n) h = after_pass (watch_passes n) (check_now h)
