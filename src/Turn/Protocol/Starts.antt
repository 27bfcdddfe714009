-- ===== src/Turn/Protocol/Starts.antt =====
-- The liveness check and the save at the start of a turn follow the protocol.
use civ_sim_taskify.Prelude.{
  String, ◌≡◌, refl, sym, ap, ◌∙◌, Bool, true, false, Option, none, some, List, [], ◌∷◌, length,
}
use civ_sim_taskify.Errors.{Error, Result, ok, err}
use civ_sim_taskify.Models.Event.{RunEvent}
use civ_sim_taskify.Resilience.Recovery.{SavePoint, write_run_event}
use civ_sim_taskify.Resilience.Detector.{check_process_liveness, appended}
use civ_sim_taskify.Run.Actions.{
  Outcome, failed, returned, Ends, Ends-bind, and_then, only_if, fail,
}
use civ_sim_taskify.Run.Actions
use civ_sim_taskify.Turn.State.{
  Deed, probed, saved, Harness, DetectionWatch, TurnCycleDependencies, TurnFailure, raised, Do,
  lift, write_event, write_events,
}
use civ_sim_taskify.Turn.Detection.{
  Fault, fault_of, primary_fault, moment, alive_now, check_liveness_now,
}
use civ_sim_taskify.Turn.Quicksave.{
  is_headroom, is_failed_save, low_space, enough_space, failed_event, build_save_point, point,
  or_report, record_point, keep_point, quicksave_name, saved_size, save_and_keep, take_quicksave,
  write_save_point,
}
use civ_sim_taskify.Turn.Quicksave.Reports.{made_same}
use civ_sim_taskify.Turn.Quicksave.Verified.{IsVerified, size-IsVerified}
use civ_sim_taskify.Turn.Cycle.{unless_faulty, detect, detect_between_turns}
use civ_sim_taskify.Turn.Protocol.{Phase, waiting, taking, ready, Follows, probes, saves, verifies}

-- A way out that keeps what holds of the deeds.
abbrev pub Keeps : (List Deed → Type 0) → TurnFailure → Harness → Type 0
Keeps P e h = P h.deeds

module _ (X : TurnFailure → Harness → Type 0) where
  -- Events are no deeds.
  pub write_events-Ends :
      (P : List Deed → Type 0) (es : List RunEvent) (h : Harness)
      → P h.deeds
      → Ends X (λ _ s. P s.deeds) (write_events es h)
  unfolding write_events
  write_events-Ends P [] h p = p
  write_events-Ends P (e ∷ es) h p = write_events-Ends P es ((write_event e h).1) p

  -- What follows a part that may raise.
  pub lift_then :
      {A B : Type 0} (Q : B → Harness → Type 0) (r : Result A) (f : A → Do B) (h : Harness)
      → ((e : Error) → X (raised e) h)
      → ((a : A) → r ≡ ok a → Ends X Q (f a h))
      → Ends X Q (and_then (lift r h) f)
  lift_then Q (ok a) f h x k = k a refl
  lift_then Q (err e) f h x k = x e

module _ (deps : TurnCycleDependencies) (X : TurnFailure → Harness → Type 0) where
  -- A liveness check is at most one probe.
  pub check_liveness_now-Ends :
      (P : List Deed → Type 0) (w : DetectionWatch)
      → ((ds : List Deed) → P ds → P (probed ∷ ds))
      → (h : Harness) → P h.deeds
      → Ends X (λ _ s. P s.deeds) (check_liveness_now deps w h)
  unfolding check_liveness_now
  check_liveness_now-Ends P w probe h p =
      elim w.liveness as (λ l. Ends X (λ _ s. P s.deeds) (alive_now deps l h)) [
        | none ↦ p
        | some alive ↦
            Ends-bind X (λ _ s. P s.deeds) (λ _ s. P s.deeds)
              (write_events
                (appended (check_process_liveness (moment deps h.deeds) (alive h.deeds)) [])
                (record h { deeds = probed ∷ h.deeds }))
              _ (write_events-Ends X P _ _ (probe h.deeds p)) (λ _ s q. q)
      ]

-- At some phase of the turn, whose save point is the next one in the store.
abbrev pub IsNext : Harness → SavePoint → Type 0
IsNext h0 save = save.save_point_id ≡ length h0.store.save_points

abbrev pub Somewhere : TurnCycleDependencies → Harness → TurnFailure → Harness → Type 0
Somewhere deps h0 e h =
    (save : SavePoint) × IsNext h0 save × (p : Phase) × Follows deps save h0.deeds p h.deeds

-- What holds of a result in two ways.
Ends-both :
    {A : Type 0} (X Y : TurnFailure → Harness → Type 0) (Q R : A → Harness → Type 0)
    (m : Outcome TurnFailure A × Harness)
    → Ends X Q m
    → Ends Y R m
    → Ends X (λ a s. Q a s × R a s) m
Ends-both X Y Q R (failed e, s) h k = h
Ends-both X Y Q R (returned a, s) h k = (h, k)

-- A liveness check takes no save.
module _ (deps : TurnCycleDependencies) where
  abbrev Any : TurnFailure → Harness → Type 0
  Any e s = Unit

  abbrev SameSaves : {A : Type 0} → Harness → A → Harness → Type 0
  SameSaves h a s = s.store.save_points ≡ h.store.save_points

  write_events-SameSaves :
      (es : List RunEvent) (h : Harness) → Ends Any (SameSaves h) (write_events es h)
  unfolding write_events write_run_event
  write_events-SameSaves [] h = refl
  write_events-SameSaves (e ∷ es) h = write_events-SameSaves es ((write_event e h).1)

  check_liveness_now-SameSaves :
      (w : DetectionWatch) (h : Harness) → Ends Any (SameSaves h) (check_liveness_now deps w h)
  unfolding check_liveness_now
  check_liveness_now-SameSaves w h =
      elim w.liveness as (λ l. Ends Any (SameSaves h) (alive_now deps l h)) [
        | none ↦ refl
        | some alive ↦
            Ends-bind Any (SameSaves h) (SameSaves h)
              (write_events
                (appended (check_process_liveness (moment deps h.deeds) (alive h.deeds)) [])
                (record h { deeds = probed ∷ h.deeds }))
              _ (write_events-SameSaves _ _) (λ _ s q. q)
      ]

module _ (deps : TurnCycleDependencies) (h0 : Harness) where
  -- A phase that does not depend on which save point will be the turn's.
  abbrev pub Early : Phase → List Deed → Type 0
  Early p ds = (save : SavePoint) → Follows deps save h0.deeds p ds

  -- Any save point will do.
  abbrev next_save : SavePoint
  next_save = point deps (length h0.store.save_points) "" 0

  -- What follows a part whose exceptions are reported.
  report_then :
      {A B : Type 0} (p : Phase) (Q : B → Harness → Type 0) (caught : Error → Bool)
      (event : RunEvent) (r : Result A) (f : A → Do B) (h : Harness)
      → Early p h.deeds
      → ((a : A) → r ≡ ok a → Ends (Somewhere deps h0) Q (f a h))
      → Ends (Somewhere deps h0) Q (and_then (or_report caught event r h) f)
  report_then p Q caught event (ok a) f h q k = k a refl
  report_then {B = B} p Q caught event (err e) f h q k =
      elim (caught e)
        as (λ b.
          Ends (Somewhere deps h0) Q
            (and_then (Actions.◌>>◌ (only_if b (write_event event)) (fail (raised e)) h) f)) [
              | true ↦ (next_save, refl, p, q next_save)
              | false ↦ (next_save, refl, p, q next_save)
            ]

  abbrev pub Begun : {A : Type 0} → A → Harness → Type 0
  Begun a s = Early waiting s.deeds × (length s.store.save_points ≡ length h0.store.save_points)

  pub detect-Ends :
      Early waiting h0.deeds → Ends (Somewhere deps h0) Begun (detect_between_turns deps h0)
  unfolding detect_between_turns
  detect-Ends q = elim deps.detection as (λ l. Ends (Somewhere deps h0) Begun (detect deps l h0)) [
    | none ↦ (q, refl)
    | some w ↦
        Ends-bind (Somewhere deps h0) (λ es s. Early waiting s.deeds × SameSaves deps h0 es s) Begun
          (check_liveness_now deps w h0) _
          (Ends-both (Somewhere deps h0) (Any deps) (λ _ s. Early waiting s.deeds)
            (SameSaves deps h0) (check_liveness_now deps w h0)
            (check_liveness_now-Ends deps (Somewhere deps h0) (Early waiting) w
              (λ ds f save. probes (f save)) h0 q)
            (check_liveness_now-SameSaves deps w h0))
          (λ es s (f, same).
            gone es s (f, ap (λ z. length z) same) (fault_of es (primary_fault es)))
  ]
    where
      gone :
          (es : List RunEvent) (s : Harness)
          → Begun es s
          → (o : Option Fault) → Ends (Somewhere deps h0) Begun (unless_faulty o s)
      gone es s f none = f
      gone es s f (some fault) = (next_save, refl, waiting, f.0 next_save)

  -- The save that the turn starts from.
  abbrev pub Taken : SavePoint → Harness → Type 0
  Taken save s = IsNext h0 save × Follows deps save h0.deeds (ready deps.attempt_index_base) s.deeds

  keep_point-Ends :
      (name : String) (ds : List Deed) (h : Harness)
      → Early (taking name) h.deeds
      → IsVerified deps h.deeds name
      → length h.store.save_points ≡ length h0.store.save_points
      → Ends (Somewhere deps h0) Taken (keep_point deps name ds h.deeds h)
  unfolding write_save_point
  keep_point-Ends name ds h q v own =
      lift_then (Somewhere deps h0) Taken
        (build_save_point deps.is_save_name
          (point deps (length h.store.save_points) name (deps.clock ds 1)))
        (record_point deps name h.deeds) h (λ e. (next_save, refl, taking name, q next_save))
        (λ made e.
          let same =
            made_same deps h deps.is_save_name
              (point deps (length h.store.save_points) name (deps.clock ds 1)) made e in
          (
            ap (λ z. z.save_point_id) same ∙ own,
            verifies (q made) v
                (
                  deps.clock ds 1,
                  same
                      ∙ ap (λ k. point deps k name (deps.clock ds 1))
                          (sym (ap (λ z. z.save_point_id) same)),
                )
                refl,
          ))

  pub take_quicksave-Ends :
      (h : Harness)
      → Early waiting h.deeds
      → length h.store.save_points ≡ length h0.store.save_points
      → Ends (Somewhere deps h0) Taken (take_quicksave deps h)
  unfolding take_quicksave
  take_quicksave-Ends h q own =
      let ds = saved (quicksave_name deps) ∷ h.deeds in
      let s = record h { deeds = ds } in
      let taken : Early (taking (quicksave_name deps)) ds =
        λ save. saves (quicksave_name deps) (q save) in
      report_then waiting Taken is_headroom (low_space deps h.deeds) (enough_space deps h.deeds)
        (λ _. save_and_keep deps h.deeds) h q
        (λ _ _.
          report_then (taking (quicksave_name deps)) Taken is_failed_save (failed_event deps ds)
            (saved_size deps h.deeds ds) (λ _. keep_point deps (quicksave_name deps) h.deeds ds) s
            taken
            (λ size e.
              keep_point-Ends (quicksave_name deps) h.deeds s taken
                ((size-IsVerified deps h.deeds ds size e).1) own))
