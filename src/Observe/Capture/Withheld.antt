-- ===== src/Observe/Capture/Withheld.antt =====
-- observe/capture.py: what the record of a step's image says, by the last attempt.
use civ_sim_taskify.Prelude.{
  String, ◌≡◌, refl, subst, true, false, Option, none, some, [], ◌⊎◌, inl, inr,
}
use civ_sim_taskify.Errors.{ok, ok-path}
use civ_sim_taskify.Models.Turn.{screened_clean, withheld, validate_capture}
use civ_sim_taskify.Observe.Capture.{
  CaptureInputs, Attempted, outcome_is_clean, wire_media_type, wire_media_types, StepCapture,
  ScreeningOutcome, clean, withheld_for, capture_for_step, last_attempt, of_attempt, Frame,
  degraded_events,
}

-- The record has the frame of this attempt, under its digest and with its media type.
abbrev pub IsCleanCapture : CaptureInputs → Attempted → StepCapture → Type 0
IsCleanCapture i a c =
    (frame : Frame) × (a.frame ≡ some frame)
    × (outcome_is_clean a.outcome ≡ true)
    × (c.blob ≡ some frame.image_bytes)
    × (c.blob_media_type ≡ wire_media_type wire_media_types (i.upper frame.image_format))
    × (c.capture.blob_ref ≡ some (i.sha256 frame.image_bytes))
    × (c.capture.capture_path ≡ a.capture_path)
    × (c.capture.screening_status ≡ screened_clean)
    × (c.events ≡ [])
    × (c.visually_degraded ≡ false)

abbrev pub IsWithheldCapture : CaptureInputs → StepCapture → Type 0
IsWithheldCapture i c =
    (c.blob ≡ none)
    × (c.blob_media_type ≡ none)
    × (c.capture.blob_ref ≡ none)
    × (c.capture.screening_status ≡ withheld)
    × (c.events ≡ degraded_events i)
    × (c.visually_degraded ≡ true)

abbrev pub Says : CaptureInputs → Attempted → StepCapture → Type 0
Says i a c =
    (c.capture.shown_to_agent ≡ false)
    × (c.capture.retained_as_evidence ≡ true)
    × (c.capture.decision_step_id ≡ i.decision_step_id)
    × (IsCleanCapture i a c ⊎ IsWithheldCapture i c)

module _ (i : CaptureInputs) where
  of_attempt-Says :
      (path : String) (f : Option Frame) (o : ScreeningOutcome) (c : StepCapture)
      → of_attempt i path f o ≡ ok c
      → Says i (record { capture_path = path; frame = f; outcome = o }) c
  unfolding validate_capture
  of_attempt-Says path none clean c h = absurd (cc)
  of_attempt-Says path (some f) clean c h =
      subst (Says i (record { capture_path = path; frame = some f; outcome = clean })) (ok-path h)
        (refl, refl, refl, inl (f, refl, refl, refl, refl, refl, refl, refl, refl, refl))
  of_attempt-Says path none (withheld_for r) c h =
      subst (Says i (record { capture_path = path; frame = none; outcome = withheld_for r }))
        (ok-path h) (refl, refl, refl, inr (refl, refl, refl, refl, refl, refl))
  of_attempt-Says path (some f) (withheld_for r) c h =
      subst (Says i (record { capture_path = path; frame = some f; outcome = withheld_for r }))
        (ok-path h) (refl, refl, refl, inr (refl, refl, refl, refl, refl, refl))

  pub capture_for_step-Says :
      (c : StepCapture) → capture_for_step i ≡ ok c → Says i (last_attempt i) c
  unfolding capture_for_step
  capture_for_step-Says c h =
      let a = last_attempt i in of_attempt-Says a.capture_path a.frame a.outcome c h
