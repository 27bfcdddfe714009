-- ===== src/Resilience/Detector.antt =====
-- civsim_harness/resilience/detector.py: what one pass over the signals reports. What a monitor
-- answers when it is asked for the k-th time in the pass is a parameter; the pause before the
-- second heartbeat and the details of the events are left out.
pub mod Signals
mod Tests
use civ_sim_taskify.Prelude.{
  ℕ, String, ◌≡◌, Bool, true, false, Option, none, some, List, [], ◌∷◌, ◌++◌, if◌then◌else◌,
}
use civ_sim_taskify.Models.Run.{Timestamp}
use civ_sim_taskify.Models.Event.{
  RunEvent, RunEventType, crash_detected, hang_detected, unresponsive_detected, unknown_screen,
  no_detail,
}

-- resilience/heartbeat_monitor.py
pub data HeartbeatOutcome : Type 0 where
  answered hang connection_lost : HeartbeatOutcome

-- The arguments that every check passes to its event.
pub record Moment : Type 0 where
  pub run_id : String
  pub occurred_at : Timestamp
  pub turn_number : Option ℕ
  pub step_index : Option ℕ

-- `DetectionAggregator`: the signals that are wired in, each with its answers.
pub record Monitors : Type 0 where
  pub liveness : Option (ℕ → Bool)
  pub heartbeat : Option (ℕ → HeartbeatOutcome)
  pub screen_identity_probe : Option Bool

unfoldable pub make_event : Moment → RunEventType → RunEvent
make_event m type = record {
  run_id = m.run_id;
  turn_number = m.turn_number;
  step_index = m.step_index;
  event_type = type;
  occurred_at = m.occurred_at;
  detail = no_detail;
}

unfoldable pub check_process_liveness : Moment → Bool → Option RunEvent
check_process_liveness m true = none
check_process_liveness m false = some (make_event m crash_detected)

-- `liveness is not None and not liveness.check()`
abbrev pub after_reprobe : Moment → Option Bool → HeartbeatOutcome → Option RunEvent
after_reprobe m liveness answered = none
after_reprobe m liveness hang = some (make_event m hang_detected)
after_reprobe m (some false) connection_lost = some (make_event m crash_detected)
after_reprobe m liveness connection_lost = some (make_event m unresponsive_detected)

-- Two readings of the heartbeat, the second taken only after a lost connection.
abbrev pub on_heartbeat :
    Moment → Option Bool → HeartbeatOutcome → HeartbeatOutcome → Option RunEvent
on_heartbeat m liveness answered again = none
on_heartbeat m liveness hang again = some (make_event m hang_detected)
on_heartbeat m liveness connection_lost again = after_reprobe m liveness again

unfoldable pub check_heartbeat : Moment → (ℕ → HeartbeatOutcome) → Option Bool → Option RunEvent
check_heartbeat m heartbeat liveness = on_heartbeat m liveness (heartbeat 0) (heartbeat 1)

unfoldable pub check_screen_identity : Moment → Bool → Option RunEvent
check_screen_identity m true = none
check_screen_identity m false = some (make_event m unknown_screen)

-- `None` is the timeout of `run_bounded`.
unfoldable pub check_operation_bound {ℓ} :
    {A : Type ℓ} → Moment → Option A → Option A × Option RunEvent
check_operation_bound m none = (none, some (make_event m unresponsive_detected))
check_operation_bound m (some result) = (some result, none)

abbrev pub reading : ℕ → Option (ℕ → Bool) → Option Bool
reading k none = none
reading k (some alive) = some (alive k)

-- `if event is not None: events.append(event)`
abbrev pub appended : Option RunEvent → List RunEvent → List RunEvent
appended none events = events
appended (some e) events = events ++ e ∷ []

abbrev with_liveness : Moment → Option Bool → List RunEvent → List RunEvent
with_liveness m none events = events
with_liveness m (some alive) events = appended (check_process_liveness m alive) events

abbrev with_heartbeat :
    Moment → Option Bool → Option (ℕ → HeartbeatOutcome) → List RunEvent → List RunEvent
with_heartbeat m liveness none events = events
with_heartbeat m liveness (some heartbeat) events =
    appended (check_heartbeat m heartbeat liveness) events

abbrev with_screen : Moment → Option Bool → List RunEvent → List RunEvent
with_screen m none events = events
with_screen m (some known) events = appended (check_screen_identity m known) events

-- The liveness monitor is asked first for itself and then for the heartbeat.
unfoldable pub check_once : Moment → Monitors → List RunEvent
check_once m monitors = with_screen m monitors.screen_identity_probe (
    with_heartbeat m (reading 1 monitors.liveness) monitors.heartbeat
      (with_liveness m (reading 0 monitors.liveness) []))
