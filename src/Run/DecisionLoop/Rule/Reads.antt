-- ===== src/Run/DecisionLoop/Rule/Reads.antt =====
-- A fresh read, however it ends.
use civ_sim_taskify.Prelude.{
  ℕ, String, ◌≡◌, refl, sym, ap, Bool, true, false, Option, none, some, List, [], ◌∷◌, Bool-cases,
  inl, inr, if◌then◌else◌, arith,
}
use civ_sim_taskify.Errors.{Error, Result, ok, err, >>=-eq-ok, ok-path}
use civ_sim_taskify.Models.Run.{Run}
use civ_sim_taskify.Models.Event.{RunEvent}
use civ_sim_taskify.Models.Turn.{Observation}
use civ_sim_taskify.Models.Value.{end}
use civ_sim_taskify.Observe.Assemble.{Header, assemble_observation, all_entries}
use civ_sim_taskify.Observe.Capture.{StepCapture, capture_for_step}
use civ_sim_taskify.Observe.Capture.Withheld.{capture_for_step-Says}
use civ_sim_taskify.Act.Registry.{Catalog, CapabilityResult}
use civ_sim_taskify.Run.Actions.{Outcome, failed, returned, Ends, Ends-bind, only_if, fail}
use civ_sim_taskify.Run.LoopState.{
  Live, looked, captured, downgraded, wrote_capture, DecisionLoopContext, DecisionStepBundle,
  Failure, raised, mid_turn_observation_failure, Do, lift, tell,
}
use civ_sim_taskify.Run.FreshRead.{
  FreshObservation, capture_inputs, observe, observe_or_wrap, settle, or_wrapped, wrapped,
  is_assembly_error, is_comparable, lower_run, downgrade_run_comparability,
}
use civ_sim_taskify.Run.DecisionLoop.Rule.{IsKept, called}

-- A fresh observation is bound to its step, and so is its capture, which is not yet shown.
abbrev pub IsFresh : ℕ → FreshObservation → Type 0
IsFresh step f =
    (f.observation.decision_step_id ≡ step)
    × (f.step_capture.capture.decision_step_id ≡ step)
    × (f.step_capture.capture.shown_to_agent ≡ false)

pub assembled-step :
    (catalog : Catalog) (h : Header) (rs : List CapabilityResult) (screen : String)
    (captures : List ℕ) (o : Observation)
    → assemble_observation catalog h rs screen captures ≡ ok o
    → o.decision_step_id ≡ h.decision_step_id
unfolding assemble_observation
assembled-step catalog h rs screen captures o e =
    let (es, p, q) = >>=-eq-ok (all_entries catalog rs) _ e in
    ap (λ z. z.decision_step_id) (sym (ok-path q))

module _ (ctx : DecisionLoopContext) (permitted : Bool) (X : Failure → Live → Type 0)
    (I : Bool → Live → Type 0) (kept : IsKept ctx permitted X I) where
  -- A part that may raise, with the state as it is.
  pub lift-Ends :
      {A : Type 0} (r : Result A) (b : Bool) (s : Live)
      → I b s
      → Ends X (λ a s'. (r ≡ ok a) × (s' ≡ s) × I b s') (lift r s)
  lift-Ends (ok a) b s i = (refl, refl, i)
  lift-Ends (err e) b s i = kept.quiet e b s i

  pub only_if-Ends :
      (b : Bool) (m : Do (Unit {0})) (f : Bool) (s : Live)
      → I f s
      → Ends X (λ _ s'. I f s') (m s)
      → Ends X (λ _ s'. I f s') (only_if b m s)
  only_if-Ends true m f s i h = h
  only_if-Ends false m f s i h = i

  settle-Ends :
      (step : ℕ) (c : StepCapture) (r : Result Observation) (s : Live)
      → c.capture.decision_step_id ≡ step
      → c.capture.shown_to_agent ≡ false
      → ((o : Observation) → r ≡ ok o → o.decision_step_id ≡ step)
      → I true s
      → Ends X (λ f s'. IsFresh step f × I true s') (settle c r s)
  settle-Ends step c (ok o) s d u h i = ((h o refl, d, u), i)
  settle-Ends step c (err e) s d u h i =
      Ends-bind X (λ _ s'. I true s') (λ f s'. IsFresh step f × I true s')
        (only_if (is_assembly_error e) (tell (wrote_capture c.capture c.blob)) s)
        (λ _. fail (raised e))
        (only_if-Ends (is_assembly_error e) (tell (wrote_capture c.capture c.blob)) true s i
          (kept.writes true s c.capture c.blob u i))
        (λ _ s' j. kept.quiet e true s' j)

  downgrade_from :
      (b : Bool) (s : Live) (o : Option Run)
      → s.run ≡ o
      → is_comparable o ≡ true
      → I b s
      → I b (record { calls = downgraded ∷ s.calls; run = lower_run o })
  downgrade_from b s none e h i = absurd (cc)
  downgrade_from b s (some r) e h i = kept.downgrades b s r e (ground arith) i

  downgrade-Ends :
      (b : Bool) (s : Live) → I b s → Ends X (λ _ s'. I b s') (downgrade_run_comparability s)
  unfolding downgrade_run_comparability
  downgrade-Ends b s i = elim (Bool-cases (is_comparable s.run)) [
    | inl e ↦ rw e (downgrade_from b s s.run refl e i)
    | inr e ↦ rw e i
  ]

  pub observe-Ends :
      (step : ℕ) (b : Bool) (s : Live)
      → I b s
      → Ends X (λ f s'. IsFresh step f × I true s') (observe ctx step s)
  unfolding observe
  observe-Ends step b s i =
      let Q : FreshObservation → Live → Type 0 = λ f s'. IsFresh step f × I true s' in
      Ends-bind X _ Q (lift (ctx.read_observation_inputs s.calls) (called looked s)) _
        (lift-Ends (ctx.read_observation_inputs s.calls) true _ (kept.looks b s i))
        (λ (results, screen) s1 (_, _, i1).
          Ends-bind X _ Q
            (lift (if ctx.window_resolved s1.calls then ctx.camera_state s1.calls else ok end) s1) _
            (lift-Ends _ true s1 i1)
            (λ camera s2 (_, _, i2).
              Ends-bind X _ Q (lift (capture_for_step (capture_inputs ctx step s1.calls camera)) s2)
                _ (lift-Ends _ true s2 i2)
                (λ c s3 (taken, _, i3).
                  Ends-bind X _ Q
                    (only_if c.visually_degraded downgrade_run_comparability
                      (called (captured c) s3))
                    _
                    (only_if-Ends c.visually_degraded downgrade_run_comparability true _
                      (kept.captures true s3 c i3)
                      (downgrade-Ends true _ (kept.captures true s3 c i3)))
                    (λ _ s4 i4.
                      let (unshown, retained, bound, form) =
                        capture_for_step-Says (capture_inputs ctx step s1.calls camera) c taken in
                      settle-Ends step c _ s4 bound unshown
                        (λ o e. assembled-step ctx.catalog _ results screen [] o e) i4))))

-- A read whose failure abandons the attempt.
module _ (ctx : DecisionLoopContext) (permitted : Bool) (X : Failure → Live → Type 0)
    (I : Bool → Live → Type 0) (kept : IsKept ctx permitted X I) (steps : List DecisionStepBundle)
    (events : List RunEvent) (streak : ℕ)
    (abandons : (b : Bool) (s : Live)
      → I b s
      → X (mid_turn_observation_failure steps events streak) s) where
  abbrev Wrapped : Failure → Live → Type 0
  Wrapped f s = X (wrapped ctx steps events streak f) s

  stays_quiet : (e : Error) (b : Bool) (s : Live) → I b s → Wrapped (raised e) s
  stays_quiet e b s i = elim (Bool-cases (is_assembly_error e)) [
    | inl h ↦ rw h (abandons b s i)
    | inr h ↦ rw h (kept.quiet e b s i)
  ]

  stays_kept : IsKept ctx permitted Wrapped I
  stays_kept = record {
    quiet = stays_quiet;
    stalled = kept.stalled;
    looks = kept.looks;
    captures = kept.captures;
    downgrades = kept.downgrades;
    writes = kept.writes;
    asks = kept.asks;
    records = kept.records;
    acts = kept.acts;
  }

  or_wrapped-Ends :
      (Q : FreshObservation → Live → Type 0) (r : Outcome Failure FreshObservation × Live)
      → Ends Wrapped Q r
      → Ends X Q (or_wrapped ctx steps events streak r)
  or_wrapped-Ends Q (failed e, s) h = h
  or_wrapped-Ends Q (returned a, s) h = h

  pub observe_or_wrap-Ends :
      (step : ℕ) (b : Bool) (s : Live)
      → I b s
      → Ends X (λ f s'. IsFresh step f × I true s') (observe_or_wrap ctx step steps events streak s)
  unfolding observe_or_wrap
  observe_or_wrap-Ends step b s i =
      or_wrapped-Ends (λ f s'. IsFresh step f × I true s') (observe ctx step s)
        (observe-Ends ctx permitted Wrapped I stays_kept step b s i)
