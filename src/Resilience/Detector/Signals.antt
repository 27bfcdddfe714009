-- ===== src/Resilience/Detector/Signals.antt =====
-- What one pass of detection reports, and what it takes to report a crash.
use civ_sim_taskify.Prelude.{
  ℕ, ◌≡◌, refl, inl, inr, ◌⊎◌, ◌↔◌, Bool, true, false, ◌||◌, Option, none, some, List, [], ◌∷◌,
  Bool-cases, arith,
}
use civ_sim_taskify.Models.Event.{RunEvent, RunEventType, crash_detected}
use civ_sim_taskify.Resilience.Detector.{
  Moment, Monitors, HeartbeatOutcome, answered, connection_lost, check_once, check_process_liveness,
  check_heartbeat, check_screen_identity, make_event,
}

abbrev is_crash : RunEventType → Bool
is_crash crash_detected = true
is_crash _ = false

-- Some event of the list is a crash.
abbrev pub reports_crash : List RunEvent → Bool
reports_crash [] = false
reports_crash (e ∷ es) = is_crash e.event_type || reports_crash es

-- No signal that is wired in tells of a fault: the process is alive, the heartbeat is answered, at
-- once or after one lost connection, and the screen is known.
pub record IsQuiet (monitors : Monitors) : Type 0 where
  pub alive : (f : ℕ → Bool) → monitors.liveness ≡ some f → f 0 ≡ true
  pub beats :
      (h : ℕ → HeartbeatOutcome)
      → monitors.heartbeat ≡ some h
      → (h 0 ≡ answered) ⊎ ((h 0 ≡ connection_lost) × (h 1 ≡ answered))
  pub known : (b : Bool) → monitors.screen_identity_probe ≡ some b → b ≡ true

abbrev wired : Option (ℕ → Bool) → Option (ℕ → HeartbeatOutcome) → Option Bool → Monitors
wired l h s = record { liveness = l; heartbeat = h; screen_identity_probe = s }

-- The process monitor found the process gone.
abbrev IsGone : (ℕ → Bool) → Option (ℕ → HeartbeatOutcome) → Type 0
IsGone f heartbeat =
    (f 0 ≡ false)
    ⊎ ((f 1 ≡ false)
        × ((h : ℕ → HeartbeatOutcome) × (heartbeat ≡ some h)
            × (h 0 ≡ connection_lost)
            × (h 1 ≡ connection_lost)))

crash_of :
    (m : Moment) (l : Option (ℕ → Bool)) (h : Option (ℕ → HeartbeatOutcome)) (s : Option Bool)
    → reports_crash (check_once m (wired l h s)) ≡ true
    → (f : ℕ → Bool) × (l ≡ some f) × IsGone f h
unfolding check_once check_process_liveness check_heartbeat check_screen_identity make_event
crash_of m none h s r = absurd (ground arith)
crash_of m (some f) h s r = elim (Bool-cases (f 0)) [
  | inl alive ↦ (f, refl, inr (twice_lost h s alive r))
  | inr gone ↦ (f, refl, inl gone)
]
  where
    twice_lost :
        (h : Option (ℕ → HeartbeatOutcome)) (s : Option Bool)
        → f 0 ≡ true
        → reports_crash (check_once m (wired (some f) h s)) ≡ true
        → (f 1 ≡ false)
          × ((g : ℕ → HeartbeatOutcome) × (h ≡ some g)
              × (g 0 ≡ connection_lost)
              × (g 1 ≡ connection_lost))
    twice_lost none s a r = absurd (ground arith)
    twice_lost (some g) s a r = (ground arith, (g, refl, ground arith, ground arith))

quiet_of :
    (m : Moment) (l : Option (ℕ → Bool)) (h : Option (ℕ → HeartbeatOutcome)) (s : Option Bool)
    → IsQuiet (wired l h s)
    → check_once m (wired l h s) ≡ []
unfolding check_once check_process_liveness check_heartbeat check_screen_identity make_event
quiet_of m (some f) (some h) (some b) q =
    ground (arith, q.alive f refl, q.beats h refl, q.known b refl)
quiet_of m (some f) (some h) none q = ground (arith, q.alive f refl, q.beats h refl)
quiet_of m (some f) none (some b) q = ground (arith, q.alive f refl, q.known b refl)
quiet_of m (some f) none none q = ground (arith, q.alive f refl)
quiet_of m none (some h) (some b) q = ground (arith, q.beats h refl, q.known b refl)
quiet_of m none (some h) none q = ground (arith, q.beats h refl)
quiet_of m none none (some b) q = ground (arith, q.known b refl)
quiet_of m none none none q = refl

module _ (m : Moment) (monitors : Monitors) where
  -- A crash is reported only if the process monitor is wired in and found the process gone, when
  -- it was asked for itself or for a heartbeat that lost its connection twice: a refused or lost
  -- connection alone is never reported as a crash.
  pub check_once_crash :
      reports_crash (check_once m monitors) ≡ true
      → (f : ℕ → Bool) × (monitors.liveness ≡ some f)
        × ((f 0 ≡ false)
            ⊎ ((f 1 ≡ false)
                × ((h : ℕ → HeartbeatOutcome) × (monitors.heartbeat ≡ some h)
                    × (h 0 ≡ connection_lost)
                    × (h 1 ≡ connection_lost))))
  check_once_crash r =
      crash_of m monitors.liveness monitors.heartbeat monitors.screen_identity_probe r

  -- A pass reports nothing exactly when no signal that is wired in tells of a fault.
  pub check_once_silent : (check_once m monitors ≡ []) ↔ IsQuiet monitors
  unfolding check_once check_process_liveness check_heartbeat check_screen_identity make_event
  check_once_silent = (
    λ e. record {
      alive = λ f p. ground arith;
      beats = λ h p. ground arith;
      known = λ b p. ground arith;
    },
    λ q. quiet_of m monitors.liveness monitors.heartbeat monitors.screen_identity_probe q,
  )
