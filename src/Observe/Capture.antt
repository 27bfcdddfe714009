-- ===== src/Observe/Capture.antt =====
-- observe/capture.py: the one image record of a step. What the host and the screening gates answer
-- to the k-th attempt is a parameter, and so are the digest of a frame and Python's `str.upper`.
pub mod Withheld
pub mod Bounded
use Prim.Native.Nat.{max}
use civ_sim_taskify.Prelude.{
  ℕ, zero, suc, String, Bool, true, false, not, ◌&&◌, Option, none, some, List, [], ◌∷◌,
  if◌then◌else◌, str_eq,
}
use civ_sim_taskify.Errors.{Error, Result, ok, err, assertion_error, ◌>>=◌}
use civ_sim_taskify.Models.Run.{Timestamp}
use civ_sim_taskify.Models.Event.{RunEvent, RunEventType, image_withheld, no_detail}
use civ_sim_taskify.Models.Event
use civ_sim_taskify.Models.Turn.{
  ScreenCapture, ScreeningStatus, WithheldReason, screened_clean, withheld, capture_failed,
  validate_capture,
}

-- DEFAULT_MAX_CAPTURE_ATTEMPTS
abbrev pub default_max_capture_attempts : ℕ
default_max_capture_attempts = 3

-- _WIRE_MEDIA_TYPES
abbrev pub wire_media_types : List (String × String)
wire_media_types =
    ("PNG", "image/png")
    ∷ ("JPEG", "image/jpeg")
    ∷ ("JPG", "image/jpeg")
    ∷ ("WEBP", "image/webp")
    ∷ ("GIF", "image/gif")
    ∷ ("BMP", "image/bmp")
    ∷ []

unfoldable pub wire_media_type : List (String × String) → String → Option String
wire_media_type [] k = none
wire_media_type ((j, t) ∷ ts) k = if str_eq j k then some t else wire_media_type ts k

pub record Frame : Type 0 where
  pub image_bytes : List ℕ
  pub image_format : String

-- parity/screening.py: a clean outcome has no reason, a withheld one has.
pub data ScreeningOutcome : Type 0 where
  clean : ScreeningOutcome
  withheld_for : WithheldReason → ScreeningOutcome

abbrev pub outcome_is_clean : ScreeningOutcome → Bool
outcome_is_clean clean = true
outcome_is_clean (withheld_for r) = false

abbrev pub status_of : ScreeningOutcome → ScreeningStatus
status_of clean = screened_clean
status_of (withheld_for r) = withheld

abbrev pub reason_of : ScreeningOutcome → Option WithheldReason
reason_of clean = none
reason_of (withheld_for r) = some r

-- The result of `_attempt_once`: the frame is that of its `CaptureAttempt`, if there is one.
pub record Attempted : Type 0 where
  pub capture_path : String
  pub frame : Option Frame
  pub outcome : ScreeningOutcome

pub record StepCapture : Type 0 where
  pub capture : ScreenCapture
  pub events : List RunEvent
  pub blob : Option (List ℕ)
  pub blob_media_type : Option String
  pub visually_degraded : Bool

-- The arguments of `capture_for_step` that its records take over, and the parameters.
pub record CaptureInputs : Type 0 where
  pub window_resolved : Bool
  pub attempt_once : ℕ → Attempted
  pub max_attempts : ℕ
  pub sha256 : List ℕ → String
  pub upper : String → String
  pub view_declaration_id : String
  pub run_id : String
  pub turn_number : ℕ
  pub decision_step_id : ℕ
  pub step_index : ℕ
  pub captured_at : Timestamp
  pub capture_id : ℕ

abbrev pub none_taken : Attempted
none_taken = record { capture_path = "none"; frame = none; outcome = withheld_for capture_failed }

-- The loop over the attempts, which a clean one leaves.
unfoldable pub attempts : (ℕ → Attempted) → ℕ → ℕ → Attempted
attempts f k zero = f k
attempts f k (suc left) =
    let rest = attempts f (suc k) left in if outcome_is_clean (f k).outcome then f k else rest

-- `range(max(1, max_attempts))`
abbrev pub rounds_after_first : ℕ → ℕ
rounds_after_first zero = 0
rounds_after_first (suc n) = n

unfoldable pub last_attempt : CaptureInputs → Attempted
unfolding attempts
last_attempt i =
    if i.window_resolved
    then attempts i.attempt_once 0 (rounds_after_first i.max_attempts)
    else none_taken

abbrev capture_record : CaptureInputs → String → ScreeningOutcome → Option String → ScreenCapture
capture_record i path outcome blob_ref = record {
  capture_id = i.capture_id;
  run_id = i.run_id;
  turn_number = i.turn_number;
  decision_step_id = i.decision_step_id;
  captured_at = i.captured_at;
  view_declaration_id = i.view_declaration_id;
  screening_status = status_of outcome;
  withheld_reason = reason_of outcome;
  shown_to_agent = false;
  retained_as_evidence = true;
  blob_ref = blob_ref;
  capture_path = path;
}

abbrev capture_event : CaptureInputs → RunEventType → RunEvent
capture_event i type = record {
  run_id = i.run_id;
  turn_number = some i.turn_number;
  step_index = some i.step_index;
  event_type = type;
  occurred_at = i.captured_at;
  detail = no_detail;
}

abbrev degraded_events : CaptureInputs → List RunEvent
degraded_events i = capture_event i Event.capture_failed ∷ capture_event i image_withheld ∷ []

-- The record by what the last attempt gave: no frame, a clean frame, or a withheld one.
abbrev of_attempt : CaptureInputs → String → Option Frame → ScreeningOutcome → Result StepCapture
of_attempt i path none clean = err assertion_error
of_attempt i path (some frame) clean = do
  c ← validate_capture (capture_record i path clean (some (i.sha256 frame.image_bytes)))
  ok (record {
    capture = c;
    events = [];
    blob = some frame.image_bytes;
    blob_media_type = wire_media_type wire_media_types (i.upper frame.image_format);
    visually_degraded = false;
  })
of_attempt i path frame (withheld_for r) = do
  c ← validate_capture (capture_record i path (withheld_for r) none)
  ok (record {
    capture = c;
    events = degraded_events i;
    blob = none;
    blob_media_type = none;
    visually_degraded = true;
  })

unfoldable pub capture_for_step : CaptureInputs → Result StepCapture
unfolding last_attempt validate_capture
capture_for_step i = let a = last_attempt i in of_attempt i a.capture_path a.frame a.outcome
