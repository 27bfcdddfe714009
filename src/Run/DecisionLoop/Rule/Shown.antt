-- ===== src/Run/DecisionLoop/Rule/Shown.antt =====
-- Which images a request carries, and what the record of a capture then says.
use civ_sim_taskify.Prelude.{
  ℕ, String, ◌≡◌, refl, sym, ap, subst, Bool, true, false, not, ◌&&◌, Option, none, some, List, [],
  ◌∷◌, Bool-cases, inl, inr, ==_iff, arith,
}
use civ_sim_taskify.Errors.{Result, ok, err, >>-eq-ok, ok-path, raise_if, validation_error}
use civ_sim_taskify.Models.Run.{is_some, is_none}
use civ_sim_taskify.Models.Turn.{
  Observation, ScreenCapture, ScreeningStatus, screened_clean, withheld, validate_capture, is_clean,
}
use civ_sim_taskify.Provider.Port.{Image}
use civ_sim_taskify.Act.Registry.{Catalog}
use civ_sim_taskify.Observe.Capture.{StepCapture}
use civ_sim_taskify.Agent.Context.{select_screened_images, may_be_shown}
use civ_sim_taskify.Run.LoopState.{DecisionLoopContext}
use civ_sim_taskify.Run.FreshRead.{images_of, step_images, as_shown}
use civ_sim_taskify.Run.Step.{with_images}
use civ_sim_taskify.Run.DecisionLoop.Rule.{has_any}

clean_status : (x : ScreeningStatus) → is_clean x ≡ true → x ≡ screened_clean
clean_status screened_clean h = refl
clean_status withheld h = absurd (cc)

candidate_shown :
    (catalog : Catalog) (o : Observation) (c : ScreenCapture) (image : Image)
    → has_any (select_screened_images catalog o ((c, image) ∷ [])) ≡ true
    → (c.screening_status ≡ screened_clean) × (c.decision_step_id ≡ o.decision_step_id)
unfolding select_screened_images
candidate_shown catalog o c image h = elim (Bool-cases (may_be_shown catalog o c)) [
  | inl e ↦ (
    clean_status c.screening_status (ground arith),
    (==_iff c.decision_step_id o.decision_step_id).0 (ground arith),
  )
  | inr e ↦ absurd (ground arith)
]

images_shown :
    (ctx : DecisionLoopContext) (o : Observation) (c : ScreenCapture) (blob : Option (List ℕ))
    (media : Option String)
    → has_any (images_of ctx o c blob media) ≡ true
    → (c.screening_status ≡ screened_clean) × (c.decision_step_id ≡ o.decision_step_id)
images_shown ctx o c none media h = absurd (cc)
images_shown ctx o c (some bytes) none h = absurd (cc)
images_shown ctx o c (some bytes) (some media) h = candidate_shown ctx.catalog o c _ h

-- Images come from a clean capture of the observation's own step.
pub shown_images :
    (ctx : DecisionLoopContext) (permitted : Bool) (o : Observation) (c : StepCapture)
    → has_any (step_images ctx o c permitted) ≡ true
    → (permitted ≡ true)
      × (c.capture.screening_status ≡ screened_clean)
      × (c.capture.decision_step_id ≡ o.decision_step_id)
unfolding step_images
shown_images ctx true o c h =
    let (a, b) = images_shown ctx o c.capture c.blob c.blob_media_type h in (refl, a, b)
shown_images ctx false o c h = absurd (cc)

validate_capture-same : (c d : ScreenCapture) → validate_capture c ≡ ok d → d ≡ c
unfolding validate_capture
validate_capture-same c d h =
    let (_, a) =
      >>-eq-ok
        (raise_if (not (is_clean c.screening_status) && is_none c.withheld_reason) validation_error)
        _ h in
    let (_, b) =
      >>-eq-ok (raise_if (not (is_clean c.screening_status) && is_some c.blob_ref) validation_error)
        _ a in
    let (_, e) =
      >>-eq-ok (raise_if (not (is_clean c.screening_status) && c.shown_to_agent) validation_error) _
        b in
    let (_, f) =
      >>-eq-ok
        (raise_if (is_clean c.screening_status && is_some c.withheld_reason) validation_error) _
        e in
    let (_, g) =
      >>-eq-ok (raise_if (c.shown_to_agent && not (is_clean c.screening_status)) validation_error) _
        f in
    sym (ok-path g)

abbrev marked : Observation → Result ScreenCapture → Result (Observation × ScreenCapture)
marked o r = elim r [ ok d ↦ ok (record o { captures = d.capture_id ∷ [] }, d) | err e ↦ err e ]

-- The capture as it is written, by whether an image is attached.
abbrev pub IsWritten : Observation × ScreenCapture → Observation → ScreenCapture → Bool → Type 0
IsWritten (o', c') o c shown =
    (c'.shown_to_agent ≡ shown)
    × (c'.screening_status ≡ c.screening_status)
    × (c'.decision_step_id ≡ c.decision_step_id)
    × (o'.decision_step_id ≡ o.decision_step_id)

marked-IsWritten :
    (o : Observation) (c : ScreenCapture) (w : Observation × ScreenCapture)
    (r : Result ScreenCapture)
    → r ≡ as_shown c
    → marked o r ≡ ok w
    → IsWritten w o c true
unfolding as_shown
marked-IsWritten o c w (err e) same h = absurd (cc)
marked-IsWritten o c w (ok d) same h =
    let e = validate_capture-same (record c { shown_to_agent = true }) d (sym same) in
    subst (λ z. IsWritten z o c true) (ok-path h)
      (
        ap (λ z. z.shown_to_agent) e,
        ap (λ z. z.screening_status) e,
        ap (λ z. z.decision_step_id) e,
        refl,
      )

pub with_images-IsWritten :
    (o : Observation) (c : ScreenCapture) (w : Observation × ScreenCapture) (images : List Image)
    → c.shown_to_agent ≡ false
    → with_images o c images ≡ ok w
    → IsWritten w o c (has_any images)
with_images-IsWritten o c w [] u h =
    subst (λ z. IsWritten z o c false) (ok-path h) (u, refl, refl, refl)
with_images-IsWritten o c w (i ∷ is) u h = marked-IsWritten o c w (as_shown c) refl h
