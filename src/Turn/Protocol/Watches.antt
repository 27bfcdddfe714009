-- ===== src/Turn/Protocol/Watches.antt =====
-- The passes of the watch, whatever they find, are probes and passes and no other deeds.
use civ_sim_taskify.Prelude.{ℕ, zero, suc, Option, none, some, List, [], ◌∷◌, leb, if_both}
use civ_sim_taskify.Models.Event.{RunEvent}
use civ_sim_taskify.Resilience.Detector.{check_once, make_event}
use civ_sim_taskify.Models.Event.{unresponsive_detected}
use civ_sim_taskify.Run.Actions.{Outcome, failed, returned, Ends, Ends-bind}
use civ_sim_taskify.Turn.State.{
  Deed, probed, passed, Harness, Pass, timed_out, broke, in_time, DetectionWatch,
  TurnCycleDependencies, TurnFailure, write_events,
}
use civ_sim_taskify.Turn.Detection.{
  Fault, fault_of, primary_fault, reported, moment, on_pass_timed_out, on_pass, unless_gone,
  check_liveness_now, check_now, on_fault, after_pass, watch_passes,
}
use civ_sim_taskify.Turn.Protocol.Starts.{Keeps, write_events-Ends, check_liveness_now-Ends}

module _ (deps : TurnCycleDependencies) (w : DetectionWatch) (P : List Deed → Type 0)
    (probe : (ds : List Deed) → P ds → P (probed ∷ ds))
    (pass : (ds : List Deed) → P ds → P (passed ∷ ds)) where
  abbrev Kept : {A : Type 0} → Outcome TurnFailure A × Harness → Type 0
  Kept r = Ends (Keeps P) (λ _ s. P s.deeds) r

  reported-Kept : (es : List RunEvent) (h : Harness) → P h.deeds → Kept (reported deps es h)
  reported-Kept es h p =
      Ends-bind (Keeps P) (λ _ s. P s.deeds) (λ _ s. P s.deeds) (write_events es h) _
        (write_events-Ends (Keeps P) P es h p) (λ _ s q. q)

  on_pass-Kept :
      (n : ℕ) (ds : List Deed) (a : Pass) (h : Harness) → P h.deeds → Kept (on_pass deps n ds a h)
  unfolding on_pass_timed_out
  on_pass-Kept n ds timed_out h p =
      if_both Kept (leb n (suc h.pass_timeouts))
        (λ _.
          reported-Kept (make_event (moment deps h.deeds) unresponsive_detected ∷ [])
            (record h { pass_timeouts = 0 }) p)
        (λ _. p)
  on_pass-Kept n ds (broke e) h p = p
  on_pass-Kept n ds (in_time monitors) h p =
      reported-Kept (check_once (moment deps ds) monitors) (record h { pass_timeouts = 0 }) p

  unless_gone-Kept : (es : List RunEvent) (h : Harness) → P h.deeds → Kept (unless_gone deps w es h)
  unless_gone-Kept [] h p =
      on_pass-Kept w.sustained_failure_threshold h.deeds (w.aggregate h.deeds)
        (record h { deeds = passed ∷ h.deeds }) (pass h.deeds p)
  unless_gone-Kept (e ∷ es) h p = p

  check_now-Kept : (h : Harness) → P h.deeds → Kept (check_now deps w h)
  unfolding check_now
  check_now-Kept h p =
      Ends-bind (Keeps P) (λ _ s. P s.deeds) (λ _ s. P s.deeds) (check_liveness_now deps w h) _
        (check_liveness_now-Ends deps (Keeps P) P w probe h p) unless_gone-Kept

  -- The watch ends with a fault or without one, never with an exception.
  pub watch_passes-Ends :
      (X : TurnFailure → Harness → Type 0) (n : ℕ) (h : Harness)
      → P h.deeds
      → Ends X (λ _ s. P s.deeds) (watch_passes deps w n h)
  unfolding watch_passes
  watch_passes-Ends X zero h p = p
  watch_passes-Ends X (suc n) h p =
      after (check_now deps w h) (check_now-Kept h p) (watch_passes-Ends X n)
    where
      found :
          (o : Option Fault) (s : Harness)
          → P s.deeds
          → ((v : Harness) → P v.deeds → Ends X (λ _ u. P u.deeds) (watch_passes deps w n v))
          → Ends X (λ _ u. P u.deeds) (on_fault deps w (watch_passes deps w n) o s)
      found none s q rest = rest s q
      found (some f) s q rest = q

      after :
          (r : Outcome TurnFailure (List RunEvent) × Harness)
          → Kept r
          → ((v : Harness) → P v.deeds → Ends X (λ _ u. P u.deeds) (watch_passes deps w n v))
          → Ends X (λ _ u. P u.deeds) (after_pass deps w (watch_passes deps w n) r)
      after (failed e, s) q rest = rest s q
      after (returned es, s) q rest = found (fault_of es (primary_fault es)) s q rest
