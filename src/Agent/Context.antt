-- ===== src/Agent/Context.antt =====
-- agent/context.py: the request of one step. The fixed text of the role and `json.dumps` are
-- parameters.
use Prim.Native.String.{◌++◌ as ◌+++◌}
use civ_sim_taskify.Prelude.{
  ℕ, String, Bool, true, false, ◌&&◌, Option, none, some, List, [], ◌∷◌, ◌==◌, if◌then◌else◌,
}
use civ_sim_taskify.Errors.{Result, ok, err}
use civ_sim_taskify.Models.Value.{Value}
use civ_sim_taskify.Models.Turn.{
  Observation, ObservationEntry, LuaContext, game_core_tuner, in_game, ScreenCapture, is_clean,
}
use civ_sim_taskify.Provider.Port.{ModelRef, Image, DecisionRequest}
use civ_sim_taskify.Act.Registry.{Catalog, ParityDeclaration, DeclarationKind, view, resolve}

pub record Texts : Type 0 where
  pub role_text : String
  pub dumps : Value → String

unfoldable pub assemble_system_prompt : Texts → Option String → String
assemble_system_prompt texts none = texts.role_text
assemble_system_prompt texts (some guidance) =
    texts.role_text +++ ("\n\n---\n\nStrategic guidance:\n\n" +++ guidance)

abbrev context_name : LuaContext → String
context_name game_core_tuner = "GameCore_Tuner"
context_name in_game = "InGame"

-- `_render_entry`
unfoldable pub render_entry : Texts → ObservationEntry → String
render_entry texts e =
    "- [" +++ (context_name e.context +++ ("] " +++ (e.key +++ (": " +++ texts.dumps e.value))))

-- `"\n".join(lines)` after a first line.
lines_after : Texts → List ObservationEntry → String
lines_after texts [] = ""
lines_after texts (e ∷ es) = "\n" +++ (render_entry texts e +++ lines_after texts es)

abbrev observed_lines : String → List ObservationEntry → String
observed_lines rendered [] = "\n(none)"
observed_lines rendered (e ∷ es) = rendered

unfoldable pub assemble_observation_text : Texts → Observation → String
unfolding lines_after render_entry
assemble_observation_text texts o =
    "Current screen: "
    +++ (o.screen_identity
        +++ ("\n\nObserved state:" +++ observed_lines (lines_after texts o.entries) o.entries))

unfoldable pub assemble_context :
    Texts → Observation → Option String → ModelRef → ℕ → List Image → DecisionRequest
assemble_context texts o guidance model step_index images = record {
  model = model;
  system = assemble_system_prompt texts guidance;
  observation = assemble_observation_text texts o;
  images = images;
  step_index = step_index;
}

abbrev pub is_view : DeclarationKind → Bool
is_view view = true
is_view _ = false

abbrev pub resolves_to_view : Result ParityDeclaration → Bool
resolves_to_view (err e) = false
resolves_to_view (ok d) = is_view d.kind

-- The three conditions under which a capture may become an image.
abbrev pub may_be_shown : Catalog → Observation → ScreenCapture → Bool
may_be_shown catalog o c =
    is_clean c.screening_status
    && ((c.decision_step_id == o.decision_step_id)
        && resolves_to_view (resolve catalog c.view_declaration_id))

unfoldable pub select_screened_images :
    Catalog → Observation → List (ScreenCapture × Image) → List Image
select_screened_images catalog o [] = []
select_screened_images catalog o ((c, image) ∷ cs) =
    let rest = select_screened_images catalog o cs in
    if may_be_shown catalog o c then image ∷ rest else rest
