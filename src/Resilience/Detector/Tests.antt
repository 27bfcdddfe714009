-- ===== src/Resilience/Detector/Tests.antt =====
-- civsim_harness/resilience/detector.py on two passes.
use civ_sim_taskify.Prelude.{ℕ, ◌≡◌, refl, ◌⊎◌, Bool, true, false, none, some, [], ◌∷◌}
use civ_sim_taskify.Models.Event.{unresponsive_detected}
use civ_sim_taskify.Resilience.Detector.{
  Moment, Monitors, HeartbeatOutcome, connection_lost, check_once, check_process_liveness,
  check_heartbeat, check_screen_identity, make_event,
}
use civ_sim_taskify.Resilience.Detector.Signals.{reports_crash, check_once_crash}

abbrev moment : Moment
moment = record { run_id = "run-1"; occurred_at = 4; turn_number = some 2; step_index = none }

abbrev lost : ℕ → HeartbeatOutcome
lost k = connection_lost

abbrev refused : Monitors
refused = record {
  liveness = some (λ k. true);
  heartbeat = some lost;
  screen_identity_probe = some true;
}

abbrev gone : Monitors
gone = record { liveness = some (λ k. false); heartbeat = some lost; screen_identity_probe = none }

refused_is_no_crash : check_once moment refused ≡ make_event moment unresponsive_detected ∷ []
unfolding check_once check_process_liveness check_heartbeat check_screen_identity
refused_is_no_crash = refl

gone_is_crash : reports_crash (check_once moment gone) ≡ true
unfolding check_once check_process_liveness check_heartbeat check_screen_identity make_event
gone_is_crash = refl

check_once_crash_example :
    (f : ℕ → Bool) × (gone.liveness ≡ some f)
    × ((f 0 ≡ false)
        ⊎ ((f 1 ≡ false)
            × ((h : ℕ → HeartbeatOutcome) × (gone.heartbeat ≡ some h)
                × (h 0 ≡ connection_lost)
                × (h 1 ≡ connection_lost))))
check_once_crash_example = check_once_crash moment gone gone_is_crash
