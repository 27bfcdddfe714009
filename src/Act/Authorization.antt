-- ===== src/Act/Authorization.antt =====
-- When an action may be attempted, and that the camera's own check only ever refuses more.
use civ_sim_taskify.Prelude.{
  String, ◌≡◌, refl, sym, ap, ◌∙◌, subst, inl, inr, ◌↔◌, true, false, not, ◌&&◌, Option, none, some,
  Bool-cases, str_eq, eq_iff, arith,
}
use civ_sim_taskify.Errors.{Result, ok, err, >>=-eq-ok}
use civ_sim_taskify.Models.Value.{Value, end}
use civ_sim_taskify.Predicate.Values.{get_field}
use civ_sim_taskify.Predicate.Syntax.{Python}
use civ_sim_taskify.Predicate.Eval.{Bindings, evaluate_predicate}
use civ_sim_taskify.Predicate.Bindings.{Observation, build_predicate_bindings}
use civ_sim_taskify.Predicate.Monotone.{Extends, evaluate_predicate_mono}
use civ_sim_taskify.Act.Registry.{
  Catalog, ParityDeclaration, LuaContext, in_game, action, resolve, authorize, lookup_declaration,
  same_context,
}
use civ_sim_taskify.Act.Dispatch.{
  DispatchOutcome, RejectionReason, authorized, refused, not_in_catalog, unavailable_to_human_now,
  out_of_parity_camera, dispatch_action, check_available,
}
use civ_sim_taskify.Act.Camera.{
  is_camera_action, camera_bindings, camera_resolved, validate_camera_action, settled,
  recheck_camera, dispatch_decision,
}

module _ (python : Python) (catalog : Catalog) (k : String) (o : Observation) (target : Value) where
  -- The declaration is an action of the catalog for the context, and its availability predicate
  -- holds of the observation and the target.
  pub record IsAvailable (context : LuaContext) (d : ParityDeclaration) : Type 0 where
    pub registered : lookup_declaration catalog.declarations k ≡ some d
    pub is_action : d.kind ≡ action
    pub declared_for : same_context d.context context ≡ true
    pub holds :
        (p : String) × (d.availability_predicate ≡ some p)
        × (evaluate_predicate python p (build_predicate_bindings o target end) ≡ ok true)

  check_holds :
      (b : Bindings) (reason : RejectionReason) (d e : ParityDeclaration) (a : Option String)
      → check_available python b reason d a ≡ ok (authorized e)
      → (p : String) × (a ≡ some p) × (evaluate_predicate python p b ≡ ok true)
  check_holds b reason d e none h = cc
  check_holds b reason d e (some p) h = (p, refl, ground arith)

  authorized_only :
      (context : LuaContext) (d : ParityDeclaration)
      → dispatch_action python catalog context k o target ≡ ok (authorized d)
      → IsAvailable context d
  unfolding dispatch_action resolve authorize
  authorized_only context d h = record {
    registered = ground arith;
    is_action = ground arith;
    declared_for = ground arith;
    holds =
        check_holds (build_predicate_bindings o target end) unavailable_to_human_now d d
          d.availability_predicate (ground arith);
  }

  authorized_when :
      (context : LuaContext) (d : ParityDeclaration)
      → IsAvailable context d
      → dispatch_action python catalog context k o target ≡ ok (authorized d)
  unfolding dispatch_action resolve authorize
  authorized_when context d v = ground (arith, v.holds)

  -- `dispatch_action` authorizes a declaration exactly when the id names it in the catalog, it is an
  -- action, it is declared for the requested context, and its availability predicate evaluates to
  -- true under the bindings of the observation and the target.
  pub dispatch_action-authorized_iff :
      (context : LuaContext) (d : ParityDeclaration)
      → (dispatch_action python catalog context k o target ≡ ok (authorized d))
        ↔ IsAvailable context d
  dispatch_action-authorized_iff context d = (authorized_only context d, authorized_when context d)

  target_found : Extends (camera_bindings target) (build_predicate_bindings o target end)
  unfolding get_field build_predicate_bindings
  target_found n v h = elim (Bool-cases (str_eq "target" n)) [
    | inl same ↦
        subst
          (λ m.
            get_field (camera_bindings target) m ≡ some v
            → get_field (build_predicate_bindings o target end) m ≡ some v)
          ((eq_iff "target" n).0 same) (λ q. q) h
    | inr differ ↦ absurd (let q : none ≡ some v = rw differ at h in cc)
  ]

  same_declaration :
      (b : Bindings) (reason : RejectionReason) (d e : ParityDeclaration) (a : Option String)
      → check_available python b reason d a ≡ ok (authorized e)
      → d ≡ e
  same_declaration b reason d e none h = cc
  same_declaration b reason d e (some p) h = ground arith

  camera_resolved_only :
      (d : ParityDeclaration) (r : Result ParityDeclaration)
      → camera_resolved python target r ≡ ok (authorized d)
      → (r ≡ ok d)
        × ((p : String) × (d.availability_predicate ≡ some p)
            × (evaluate_predicate python p (build_predicate_bindings o target end) ≡ ok true))
  camera_resolved_only d (err e) h = absurd (cc)
  camera_resolved_only d (ok c) h =
      let same =
        same_declaration (camera_bindings target) out_of_parity_camera c d c.availability_predicate
          h in
      let (p, a, q) =
        check_holds (camera_bindings target) out_of_parity_camera c d c.availability_predicate h in
      (
        ap ok same,
        (
          p,
          ap (λ (x : ParityDeclaration). x.availability_predicate) (sym same) ∙ a,
          evaluate_predicate_mono python p _ _ true target_found q,
        ),
      )

  camera_only :
      (d : ParityDeclaration)
      → validate_camera_action python catalog k target ≡ ok (authorized d)
      → (resolve catalog k ≡ ok d)
        × ((p : String) × (d.availability_predicate ≡ some p)
            × (evaluate_predicate python p (build_predicate_bindings o target end) ≡ ok true))
  unfolding validate_camera_action
  camera_only d h = elim (Bool-cases (is_camera_action k)) [
    | inl camera ↦ camera_resolved_only d (resolve catalog k) (
        let q : camera_resolved python target (resolve catalog k) ≡ ok (authorized d) =
          rw camera at h in
        q)
    | inr other ↦
        absurd (let q : ok (refused not_in_catalog) ≡ ok (authorized d) = rw other at h in cc)
  ]

  -- What the generic dispatch did with an action whose predicate holds.
  first_outcome :
      (d : ParityDeclaration) (first : DispatchOutcome)
      → dispatch_action python catalog in_game k o target ≡ ok first
      → resolve catalog k ≡ ok d
      → ((p : String) × (d.availability_predicate ≡ some p)
          × (evaluate_predicate python p (build_predicate_bindings o target end) ≡ ok true))
      → settled first ≡ false
      → first ≡ authorized d
  unfolding dispatch_action authorize
  first_outcome d first h r (p, a, q) s = ground arith

  kept :
      (d : ParityDeclaration) (first : DispatchOutcome)
      → dispatch_action python catalog in_game k o target ≡ ok first
      → recheck_camera python catalog k target first ≡ ok (authorized d)
      → first ≡ authorized d
  unfolding recheck_camera
  kept d first p q = elim (Bool-cases (is_camera_action k && not (settled first))) [
    | inl camera ↦
        let checked : validate_camera_action python catalog k target ≡ ok (authorized d) =
          rw camera at q in
        let (r, v) = camera_only d checked in first_outcome d first p r v (ground arith)
    | inr other ↦ let same : ok first ≡ ok (authorized d) = rw other at q in cc
  ]

  -- Whatever the camera's own check does to the outcome of a decision, an action that the decision
  -- loop attempts is one that the generic dispatch authorizes, as the same declaration.
  pub dispatch_decision-authorized :
      (d : ParityDeclaration)
      → dispatch_decision python catalog k o target ≡ ok (authorized d)
      → dispatch_action python catalog in_game k o target ≡ ok (authorized d)
  unfolding dispatch_decision
  dispatch_decision-authorized d h =
      let (first, p, q) =
        >>=-eq-ok (dispatch_action python catalog in_game k o target)
          (recheck_camera python catalog k target) h in
      p ∙ ap ok (kept d first p q)
