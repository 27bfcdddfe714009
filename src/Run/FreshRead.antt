-- ===== src/Run/FreshRead.antt =====
-- run/decision_loop.py: one fresh read of the game with its image, and what is read off it before a
-- decision is asked for.
use civ_sim_taskify.Prelude.{
  ℕ, String, Bool, true, false, Option, none, some, List, [], ◌∷◌, str_eq, if◌then◌else◌,
}
use civ_sim_taskify.Errors.{Error, Result, ok, err, observation_assembly_error}
use civ_sim_taskify.Models.Run.{
  Run, Timestamp, HostSupportTier, comparable, visually_degraded, validated, supported,
}
use civ_sim_taskify.Models.Event.{RunEvent}
use civ_sim_taskify.Models.Turn.{Observation, ObservationEntry, ScreenCapture, validate_capture}
use civ_sim_taskify.Models.Value.{Value, null, Fields, end}
use civ_sim_taskify.Provider.Port.{Image}
use civ_sim_taskify.Observe.Assemble.{assemble_observation}
use civ_sim_taskify.Observe.Capture.{
  StepCapture, CaptureInputs, capture_for_step, default_max_capture_attempts,
}
use civ_sim_taskify.Observe.Screen.{ScreenIdentityResult, interpret_screen_state}
use civ_sim_taskify.Act.Prompts.{PromptRoute, prompt_decision, no_prompt, stalled, route_prompt}
use civ_sim_taskify.Agent.Decisions.{DecisionTrigger, proactive, prompt_response}
use civ_sim_taskify.Agent.Context.{select_screened_images}
use civ_sim_taskify.Run.Actions.{Outcome, failed, returned, pure, fail, only_if, ◌>>=◌, ◌>>◌}
use civ_sim_taskify.Run.LoopState.{
  Call, looked, captured, downgraded, wrote_capture, Live, DecisionLoopContext, DecisionStepBundle,
  Failure, raised, mid_turn_observation_failure, Do, lift, calls_now, tell,
}

-- `_FreshObservation`
pub record FreshObservation : Type 0 where
  pub observation : Observation
  pub step_capture : StepCapture
  pub events : List RunEvent

-- The trigger of a step and its type of prompt, or `UnknownScreenEncountered` with its event.
pub data Routed : Type 0 where
  routed : DecisionTrigger → Option String → Routed
  unrecognized : RunEvent → Routed

abbrev pub is_comparable : Option Run → Bool
is_comparable none = false
is_comparable (some r) = elim r.comparability_status [ comparable ↦ true | _ ↦ false ]

abbrev pub lower_run : Option Run → Option Run
lower_run none = none
lower_run (some r) = some (record r { comparability_status = visually_degraded })

-- `_downgrade_run_comparability`
unfoldable pub downgrade_run_comparability : Do (Unit {0})
downgrade_run_comparability s =
    if is_comparable s.run
    then (returned tt, record { calls = downgraded ∷ s.calls; run = lower_run s.run })
    else (returned tt, s)

abbrev pub is_validated : HostSupportTier → Bool
is_validated validated = true
is_validated supported = false

-- `_images_permitted_for_run`
unfoldable pub images_permitted_for_run : Option Run → Bool
images_permitted_for_run none = false
images_permitted_for_run (some r) = is_validated r.host_support_tier

abbrev pub images_of :
    DecisionLoopContext → Observation → ScreenCapture → Option (List ℕ) → Option String → List Image
images_of ctx o c none media = []
images_of ctx o c (some bytes) none = []
images_of ctx o c (some bytes) (some media) =
    select_screened_images ctx.catalog o ((c, record { media_type = media; bytes = bytes }) ∷ [])

-- `_step_images`
unfoldable pub step_images : DecisionLoopContext → Observation → StepCapture → Bool → List Image
step_images ctx o c permitted =
    if permitted then images_of ctx o c.capture c.blob c.blob_media_type else []

-- `_as_shown`
unfoldable pub as_shown : ScreenCapture → Result ScreenCapture
as_shown c = validate_capture (record c { shown_to_agent = true })

abbrev pub is_assembly_error : Error → Bool
is_assembly_error observation_assembly_error = true
is_assembly_error e = false

abbrev pub capture_inputs : DecisionLoopContext → ℕ → List Call → Fields → CaptureInputs
capture_inputs ctx step calls camera = record {
  window_resolved = ctx.window_resolved calls;
  attempt_once = ctx.attempt_once calls camera;
  max_attempts = default_max_capture_attempts;
  sha256 = ctx.sha256;
  upper = ctx.upper;
  view_declaration_id = ctx.view_declaration_id;
  run_id = ctx.run_id;
  turn_number = ctx.turn_number;
  decision_step_id = step;
  step_index = step;
  captured_at = ctx.clock calls 0;
  capture_id = step;
}

-- An assembled observation, or the capture's record before the exception goes on.
abbrev pub settle : StepCapture → Result Observation → Do FreshObservation
settle c (ok o) = pure (record { observation = o; step_capture = c; events = c.events })
settle c (err e) =
    only_if (is_assembly_error e) (tell (wrote_capture c.capture c.blob)) >> fail (raised e)

module _ (ctx : DecisionLoopContext) where
  -- `_observe`
  unfoldable pub observe : ℕ → Do FreshObservation
  unfolding downgrade_run_comparability
  observe step = do
    before ← calls_now
    tell looked
    (results, screen) ← lift (ctx.read_observation_inputs before)
    calls ← calls_now
    camera ← lift (if ctx.window_resolved calls then ctx.camera_state calls else ok end)
    c ← lift (capture_for_step (capture_inputs ctx step calls camera))
    tell (captured c)
    only_if c.visually_degraded downgrade_run_comparability
    now ← calls_now
    settle c (
        assemble_observation ctx.catalog
          (record {
            observation_id = step;
            decision_step_id = step;
            assembled_at = ctx.clock now 0;
            catalog_version = ctx.catalog_version;
          })
          results screen [])

  abbrev pub wrapped : List DecisionStepBundle → List RunEvent → ℕ → Failure → Failure
  wrapped steps events streak (raised e) =
      if is_assembly_error e then mid_turn_observation_failure steps events streak else raised e
  wrapped steps events streak f = f

  abbrev pub or_wrapped :
      List DecisionStepBundle
      → List RunEvent
      → ℕ
      → Outcome Failure FreshObservation × Live
      → Outcome Failure FreshObservation × Live
  or_wrapped steps events streak (returned a, s) = (returned a, s)
  or_wrapped steps events streak (failed e, s) = (failed (wrapped steps events streak e), s)

  -- `_observe_or_wrap`
  unfoldable pub observe_or_wrap :
      ℕ → List DecisionStepBundle → List RunEvent → ℕ → Do FreshObservation
  observe_or_wrap step steps events streak s = or_wrapped steps events streak (observe step s)

  -- The value of the first entry of `game.screen_state`.
  abbrev pub screen_value : List ObservationEntry → Option Value
  screen_value [] = none
  screen_value (e ∷ es) =
      if str_eq e.declaration_id "game.screen_state" then some e.value else screen_value es

  abbrev of_route : PromptRoute → Routed
  of_route (prompt_decision id prompt_type options) = routed prompt_response (some prompt_type)
  of_route no_prompt = routed proactive none
  of_route (stalled event) = unrecognized event

  abbrev of_routed : Result PromptRoute → Result Routed
  of_routed (err e) = err e
  of_routed (ok r) = ok (of_route r)

  abbrev of_screen : ℕ → Timestamp → Result ScreenIdentityResult → Result Routed
  of_screen step at (err e) = if is_assembly_error e then ok (routed proactive none) else err e
  of_screen step at (ok screen) =
      of_routed (route_prompt ctx.catalog screen ctx.run_id (some ctx.turn_number) (some step) at)

  abbrev of_screen_value : ℕ → Timestamp → Option Value → Result Routed
  of_screen_value step at none = ok (routed proactive none)
  of_screen_value step at (some null) = ok (routed proactive none)
  of_screen_value step at (some v) = of_screen step at (interpret_screen_state ctx.coercions v)

  -- `_resolve_trigger`
  unfoldable pub resolve_trigger : Observation → ℕ → Timestamp → Result Routed
  resolve_trigger o step at = of_screen_value step at (screen_value o.entries)
