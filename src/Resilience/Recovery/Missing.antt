-- ===== src/Resilience/Recovery/Missing.antt =====
-- A recovery reaches `resuming` from every state it accepts, and a save that is gone fails the run.
use civ_sim_taskify.Prelude.{
  ℕ, ◌≡◌, refl, sym, ap, ◌∙◌, subst, inl, inr, ◌⊎◌, true, false, none, some, List, [], ◌∷◌, ◌++◌,
  ◌==◌, ==_iff, if_both, arith,
}
use civ_sim_taskify.Errors.{Result, ok, err, file_not_found, save_addressing_error}
use civ_sim_taskify.Models.Run.{
  Timestamp, LifecycleState, preparing, playing, waiting_on_model, waiting_on_game, paused,
  interrupted, resuming, finished, failed, Run, IsValid, is_terminal, unrecoverable_failure,
}
use civ_sim_taskify.Models.Event.{RunEvent}
use civ_sim_taskify.Lifecycle.{transition, transition_event, updated}
use civ_sim_taskify.Lifecycle.Graph.{Edge, interrupt, resume, give_up}
use civ_sim_taskify.Lifecycle.Transition.{transition-eq-ok_iff, transition-IsValid}
use civ_sim_taskify.Resilience.Recovery.{
  SavePoint, World, RecoveryResult, is_absent, recover, ensure_interrupted_and_resuming,
  write_run_event, update_state, update_ended, abandoned, fail_on_missing_save, report_save_missing,
  from_resuming, from_state, moved, then_resuming, only_resuming,
}
use civ_sim_taskify.Resilience.Recovery.Outcomes.{
  IsRecoverable, in_play, stopped, retried, transition_state,
}

module _ (turn : ℕ) (at : Timestamp) where
  -- A legal move of a valid run to a state that is not terminal.
  step :
      (run : Run) (to : LifecycleState)
      → IsValid run
      → Edge run.lifecycle_state to
      → is_terminal to ≡ false
      → (r : Run) × (e : RunEvent) × (transition run to at (some turn) none none ≡ ok (r, e))
        × IsValid r
        × (r.lifecycle_state ≡ to)
  step run to v edge open_state =
      let moves =
        (transition-eq-ok_iff run to at (some turn) none none v).1
          (edge, record { only_terminal = λ p. cc; finished_needs = λ p. ground arith }) in
      (
        updated run to at none,
        transition_event run to at (some turn) none,
        moves,
        transition-IsValid run to at (some turn) none none moves,
        transition_state run to at (some turn) none none moves,
      )

  -- The run in the store, once it is marked as resuming.
  relabel :
      (run x : Run) (s : LifecycleState)
      → x ≡ run
      → IsValid run
      → is_terminal run.lifecycle_state ≡ false
      → s ≡ resuming
      → (s ≡ resuming) × IsValid (record x { lifecycle_state = s })
  relabel run x s p v open_state e = (
    e,
    subst (λ y. IsValid (record y { lifecycle_state = s })) (sym p)
        (record {
          parent_turn_positive = v.parent_turn_positive;
          finished_resolved = λ q. absurd (ground (arith, e, q));
          resolved_terminal =
              λ q. absurd (let r = v.resolved_terminal q in ground (arith, r, open_state));
          archived_terminal =
              λ q. absurd (let r = v.archived_terminal q in ground (arith, r, open_state));
        }),
  )

  -- The run that the failure path starts from.
  pub record IsReady (run : Run) (w : World) (x : Result (Run × List RunEvent) × World)
      : Type 0 where
    pub ready : Run
    pub before : List RunEvent
    pub after : World
    pub result : x ≡ (ok (ready, before), after)
    pub resumes : ready.lifecycle_state ≡ resuming
    pub valid : IsValid ready
    pub same_count : after.consecutive_failures ≡ w.consecutive_failures
    pub stored : w.run ≡ run → (after.run.lifecycle_state ≡ resuming) × IsValid after.run

  carried :
      (r : Run) (e : RunEvent) (r' : Run) (e' : RunEvent) (before : List RunEvent) (u : World)
      → transition r resuming at (some turn) none none ≡ ok (r', e')
      → then_resuming turn at before (ok (r, e), u)
        ≡ (ok (r', before ++ e ∷ e' ∷ []), update_state r' (write_run_event e' u))
  carried r e r' e' before u t = rw t refl

  pub reach :
      (state : LifecycleState) (run : Run) (w : World)
      → run.lifecycle_state ≡ state
      → IsValid run
      → IsRecoverable state
      → IsReady run w (from_state turn at state run w)
  unfolding write_run_event update_state
  reach resuming run w s v retried = record {
    ready = run;
    before = _;
    after = w;
    result = refl;
    resumes = s;
    valid = v;
    same_count = refl;
    stored = λ p. (ap (λ (z : Run). z.lifecycle_state) p ∙ s, subst IsValid (sym p) v);
  }
  reach interrupted run w s v stopped =
      let (r, e, t, valid, st) =
        step run resuming v (subst (λ z. Edge z resuming) (sym s) resume) refl in
      record {
        ready = r;
        before = _;
        after = _;
        result = ap (λ x. only_resuming turn at (moved turn at x w)) t;
        resumes = st;
        valid = valid;
        same_count = refl;
        stored = λ p. relabel run w.run _ p v (ap is_terminal s) st;
      }
  reach playing run w s v in_play =
      let (r, e, t, valid, st) =
        step run interrupted v (subst (λ z. Edge z interrupted) (sym s) interrupt) refl in
      let (r', e', t', valid', st') =
        step r resuming valid (subst (λ z. Edge z resuming) (sym st) resume) refl in
      record {
        ready = r';
        before = _;
        after = _;
        result =
            ap
              (λ x.
                then_resuming turn at (abandoned turn at run ∷ [])
                  (moved turn at x (write_run_event (abandoned turn at run) w)))
              t
            ∙ carried r e r' e' (abandoned turn at run ∷ []) _ t';
        resumes = st';
        valid = valid';
        same_count = refl;
        stored = λ p. relabel run w.run _ p v (ap is_terminal s) st';
      }
  reach preparing run w s v x = elim x [ ]
  reach waiting_on_model run w s v x = elim x [ ]
  reach waiting_on_game run w s v x = elim x [ ]
  reach paused run w s v x = elim x [ ]
  reach finished run w s v x = elim x [ ]
  reach failed run w s v x = elim x [ ]

  abbrev Ended : World → Result RecoveryResult × World → Type 0
  Ended w x =
      (x.0 ≡ err save_addressing_error)
      × (x.1.run.lifecycle_state ≡ failed)
      × (x.1.consecutive_failures ≡ w.consecutive_failures)

  fails_now :
      (run : Run) (w u : World)
      → IsValid run
      → run.lifecycle_state ≡ resuming
      → u.consecutive_failures ≡ w.consecutive_failures
      → Ended w (fail_on_missing_save turn at run u)
  unfolding write_run_event update_ended updated
  fails_now run w u v s e =
      let moves = (transition-eq-ok_iff run failed at none none (some unrecoverable_failure) v).1 (
        subst (λ z. Edge z failed) (sym s) give_up,
        record { only_terminal = λ _. refl; finished_needs = λ p. refl },
      ) in
      rw moves (refl, refl, e)

  gone_fails :
      (limit : ℕ) (load : SavePoint → Result (Unit {0})) (save : SavePoint) (w : World) (run : Run)
      (before : List RunEvent) (u : World)
      → IsValid run
      → run.lifecycle_state ≡ resuming
      → u.consecutive_failures ≡ w.consecutive_failures
      → (is_absent save ≡ true) ⊎ (load save ≡ err file_not_found)
      → Ended w (from_resuming turn at limit load save (ok (run, before), u))
  unfolding report_save_missing write_run_event
  gone_fails limit load save w run before u v s e (inl absent) = rw absent (fails_now run w u v s e)
  gone_fails limit load save w run before u v s e (inr lost) =
      if_both (Ended w) (is_absent save) (λ _. fails_now run w u v s e)
        (λ _. rw lost (fails_now run w (report_save_missing save at u) v s e))

  -- From a valid run that plays, was interrupted or was left resuming, and for a save of the turn
  -- that is recorded absent or whose file is not found: the run is failed at once, whatever the
  -- limit, `SaveAddressingError` is raised, and the failures in a row are not counted up.
  pub recover_missing :
      (limit : ℕ) (load : SavePoint → Result (Unit {0})) (run : Run) (save : SavePoint) (w : World)
      → IsValid run
      → IsRecoverable run.lifecycle_state
      → save.turn_number ≡ turn
      → (is_absent save ≡ true) ⊎ (load save ≡ err file_not_found)
      → ((recover turn at limit load run save w).0 ≡ err save_addressing_error)
        × ((recover turn at limit load run save w).1.run.lifecycle_state ≡ failed)
        × ((recover turn at limit load run save w).1.consecutive_failures ≡ w.consecutive_failures)
  unfolding recover ensure_interrupted_and_resuming
  recover_missing limit load run save w v c own gone =
      let ready = reach run.lifecycle_state run w refl v c in
      let same : (save.turn_number == turn) ≡ true = (==_iff save.turn_number turn).1 own in
      rw same (
        rw ready.result (
          gone_fails limit load save w ready.ready ready.before ready.after ready.valid
            ready.resumes ready.same_count gone))
