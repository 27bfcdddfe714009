-- ===== src/Turn/Protocol/Replays.antt =====
-- The attempts at a turn follow the protocol, however the loop, the watch, the store and the
-- recovery answer.
use civ_sim_taskify.Prelude.{ℕ, String, ◌≡◌, Option, none, some, List, []}
use civ_sim_taskify.Errors.{Result, ok, err}
use civ_sim_taskify.Resilience.Recovery.{SavePoint, World, RecoveryResult}
use civ_sim_taskify.Run.Actions.{Outcome, Ends, Ends-bind}
use civ_sim_taskify.Run.LoopState.{Live, DecisionLoopResult, Failure}
use civ_sim_taskify.Run.DecisionLoop.{run_decision_loop}
use civ_sim_taskify.Run.DecisionLoop.Exits.{Implements, run_decision_loop-Implements}
use civ_sim_taskify.Turn.State.{Deed, Harness, TurnCycleDependencies}
use civ_sim_taskify.Turn.Detection.{
  Fault, fault_of, primary_fault, check_liveness_now, watch_passes,
}
use civ_sim_taskify.Turn.Attempts.{
  Played, by_itself, cancelled, watched, unless_faulty, ran_through, run_decision_loop_watched,
  of_recovery, unless_still_faulty, still_alive,
}
use civ_sim_taskify.Turn.Protocol.{Phase, ready, over, mending, Follows, probes, passes, plays}
use civ_sim_taskify.Turn.Protocol.Starts.{IsNext, Somewhere, check_liveness_now-Ends}
use civ_sim_taskify.Turn.Protocol.Watches.{watch_passes-Ends}

module _ (deps : TurnCycleDependencies) (h0 : Harness) where
  -- What the loop of an attempt has come to, if it was not cancelled.
  abbrev pub LoopOf : List Deed → String → Played → Type 0
  LoopOf before id (cancelled f) = Unit
  LoopOf before id (by_itself o) =
      (s : Live) × Implements (deps.build_loop_context before id) deps.loop_fuel (o, s)

  module _ (save : SavePoint) (own : IsNext h0 save) where
    abbrev pub At : Phase → Harness → Type 0
    At p h = Follows deps save h0.deeds p h.deeds

    abbrev pub IsOver : ℕ → List Deed → String → Played → Harness → Type 0
    IsOver i before id p h = At (over i id before) h × LoopOf before id p

    unless_faulty-Ends :
        (i : ℕ) (before : List Deed) (id : String) (n : ℕ) (fault : Option Fault) (h : Harness)
        → Follows deps save h0.deeds (ready i) before
        → id ≡ deps.new_cycle_id before
        → At (ready i) h
        → Ends
            (Somewhere deps h0)
            (IsOver i before id)
            (unless_faulty deps (deps.build_loop_context before id) id n fault h)
    unless_faulty-Ends i before id n none h begun new f =
        let live : Live = record { calls = []; run = some h.store.run } in
        let ctx = deps.build_loop_context before id in
        through (run_decision_loop ctx deps.loop_fuel live)
          (run_decision_loop-Implements ctx deps.loop_fuel live)
      where
        through :
            (r : Outcome Failure DecisionLoopResult × Live)
            → Implements (deps.build_loop_context before id) deps.loop_fuel r
            → Ends (Somewhere deps h0) (IsOver i before id) (ran_through deps id r h)
        through (o, s) m = (plays id s.calls begun new f, (s, m))
    unless_faulty-Ends i before id n (some fault) h begun new f = (plays id _ begun new f, tt)

    pub watched-Ends :
        (i : ℕ) (before : List Deed) (id : String) (h : Harness)
        → Follows deps save h0.deeds (ready i) before
        → id ≡ deps.new_cycle_id before
        → At (ready i) h
        → Ends
            (Somewhere deps h0)
            (IsOver i before id)
            (run_decision_loop_watched deps (deps.build_loop_context before id) id h)
    unfolding run_decision_loop_watched
    watched-Ends i before id h begun new f =
        elim deps.detection
          as (λ d.
            Ends (Somewhere deps h0) (IsOver i before id)
              (watched deps (deps.build_loop_context before id) id d h)) [
                | none ↦ unless_faulty-Ends i before id 0 none h begun new f
                | some w ↦
                    Ends-bind (Somewhere deps h0) (λ _ s. At (ready i) s) (IsOver i before id)
                      (watch_passes deps w (w.passes_during h.deeds) h) _
                      (watch_passes-Ends deps w (Follows deps save h0.deeds (ready i))
                        (λ ds g. probes g) (λ ds g. passes g) (Somewhere deps h0)
                        (w.passes_during h.deeds) h f)
                      (λ fault s g.
                        unless_faulty-Ends i before id (w.calls_before h.deeds) fault s begun new g)
              ]

    -- What a recovery returns, or where it stops.
    pub of_recovery-Ends :
        (i : ℕ) (r : Result RecoveryResult × World) (h : Harness)
        → At (mending i) h
        → Ends (Somewhere deps h0) (λ _ s. At (mending i) s) (of_recovery deps r h)
    of_recovery-Ends i (ok r, w) h f = f
    of_recovery-Ends i (err e, w) h f = (save, own, mending i, f)

    pub still_alive-Ends :
        (i : ℕ) (h : Harness)
        → At (mending i) h
        → Ends (Somewhere deps h0) (λ _ s. At (mending i) s) (still_alive deps deps.detection h)
    still_alive-Ends i h f =
        elim deps.detection
          as (λ d. Ends (Somewhere deps h0) (λ _ s. At (mending i) s) (still_alive deps d h)) [
            | none ↦ f
            | some w ↦
                Ends-bind (Somewhere deps h0) (λ _ s. At (mending i) s) (λ _ s. At (mending i) s)
                  (check_liveness_now deps w h) _
                  (check_liveness_now-Ends deps (Somewhere deps h0)
                    (Follows deps save h0.deeds (mending i)) w (λ ds g. probes g) h f)
                  (λ es s g. alive s g (fault_of es (primary_fault es)))
          ]
      where
        alive :
            (s : Harness)
            → At (mending i) s
            → (o : Option Fault)
            → Ends (Somewhere deps h0) (λ _ v. At (mending i) v) (unless_still_faulty deps o s)
        alive s g none = g
        alive s g (some fault) = (save, own, mending i, g)
