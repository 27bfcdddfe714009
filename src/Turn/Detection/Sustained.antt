-- ===== src/Turn/Detection/Sustained.antt =====
-- A client whose process lives and whose console never answers.
use civ_sim_taskify.Prelude.{
  ℕ, zero, suc, ◌+◌, ◌≤◌, ◌<◌, ◌≡◌, ap, ◌∙◌, true, false, Option, none, some, List, [], ◌∷◌, ltb,
  leb, lt→ltb, leb→le, subst, if◌then◌else◌, Bool-cases, inl, inr, arith,
}
use civ_sim_taskify.Models.Event.{RunEvent, unresponsive_detected}
use civ_sim_taskify.Resilience.Detector.{make_event, check_process_liveness}
use civ_sim_taskify.Run.Actions.{Outcome, returned}
use civ_sim_taskify.Turn.State.{
  Deed, probed, passed, Harness, timed_out, DetectionWatch, TurnCycleDependencies, TurnFailure,
  write_events,
}
use civ_sim_taskify.Turn.Detection.{
  Fault, moment, check_liveness_now, on_pass_timed_out, check_now, primary_fault, watch_passes,
}

-- The process is always found and every aggregate pass exceeds its bound.
abbrev pub zombie : ℕ → (List Deed → ℕ) → (List Deed → ℕ) → DetectionWatch
zombie threshold during before = record {
  liveness = some (λ _. true);
  aggregate = λ _. timed_out;
  sustained_failure_threshold = threshold;
  passes_during = during;
  calls_before = before;
}

module _ (deps : TurnCycleDependencies) (threshold : ℕ) (during before : List Deed → ℕ) where
  abbrev pub event_at : List Deed → RunEvent
  event_at ds = make_event (moment deps ds) unresponsive_detected

  abbrev pub unresponsive_at : List Deed → Fault
  unresponsive_at ds = record { events = event_at ds ∷ []; primary = unresponsive_detected }

  -- What the watch has found after some passes.
  abbrev pub Found : ℕ → List Deed → Outcome TurnFailure (Option Fault) → Type 0
  Found k ds o =
      o ≡ (if ltb k threshold then returned none else returned (some (unresponsive_at ds)))

  module _ (n : ℕ) (h : Harness) where
    abbrev busy : Harness
    busy = record h { deeds = passed ∷ probed ∷ h.deeds; pass_timeouts = suc h.pass_timeouts }

    quiet_pass :
        leb threshold (suc h.pass_timeouts) ≡ false
        → watch_passes deps (zombie threshold during before) (suc n) h
          ≡ watch_passes deps (zombie threshold during before) n busy
    unfolding watch_passes check_now check_liveness_now on_pass_timed_out primary_fault
        check_process_liveness write_events
    quiet_pass e = rw e

    last_pass :
        leb threshold (suc h.pass_timeouts) ≡ true
        → (watch_passes deps (zombie threshold during before) (suc n) h).0
          ≡ returned (some (unresponsive_at (passed ∷ probed ∷ h.deeds)))
    unfolding watch_passes check_now check_liveness_now on_pass_timed_out primary_fault
        check_process_liveness write_events make_event
    last_pass e = rw e

  reached : (c n : ℕ) → threshold ≤ suc c → ltb (suc n + c) threshold ≡ false
  reached c n le = ground arith

  below : (c : ℕ) → leb threshold (suc c) ≡ false → suc c < threshold
  below c e = ground arith

  -- For a client whose process lives and each of whose passes exceeds its bound, and from a count of
  -- such passes below the threshold: the passes of a watch find a fault exactly if they and those
  -- counted before are as many as the threshold. It is then reported as unresponsive, and fewer
  -- passes are reported as nothing.
  pub watch_passes-Found :
      (n : ℕ) (h : Harness)
      → h.pass_timeouts < threshold
      → (ds : List Deed) × Found
          (n + h.pass_timeouts)
          ds
          (watch_passes deps (zombie threshold during before) n h).0
  unfolding watch_passes
  watch_passes-Found zero h low =
      (h.deeds, rw (lt→ltb (0 + h.pass_timeouts) threshold (omega arith)))
  watch_passes-Found (suc n) h low = elim (Bool-cases (leb threshold (suc h.pass_timeouts))) [
    | inl now ↦ (
      passed ∷ probed ∷ h.deeds,
      last_pass n h now ∙ rw (reached h.pass_timeouts n (leb→le _ _ now)),
    )
    | inr later ↦
        let (ds, found) = watch_passes-Found n (busy n h) (below h.pass_timeouts later) in
        (
          ds,
          ap (λ z. z.0) (quiet_pass n h later)
              ∙ subst
                  (λ k.
                    Found k ds (watch_passes deps (zombie threshold during before) n (busy n h)).0)
                  (omega arith) found,
        )
  ]
