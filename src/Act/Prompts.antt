-- ===== src/Act/Prompts.antt =====
-- act/prompts.py: from the identity of the screen to the one decision that a prompt asks for, or to
-- a stall.
use Prim.Native.String.{◌++◌ as ◌+++◌}
use civ_sim_taskify.Prelude.{ℕ, zero, suc, String, not, Option, if◌then◌else◌}
use civ_sim_taskify.Errors.{Result, ok, catalog_error, raise_if, ◌>>=◌, ◌>>◌}
use civ_sim_taskify.Models.Run.{Timestamp}
use civ_sim_taskify.Models.Event.{RunEvent, unknown_screen, no_detail}
use civ_sim_taskify.Models.Value.{Items}
use civ_sim_taskify.Observe.Screen.{ScreenIdentityResult, is_prompt_screen}
use civ_sim_taskify.Act.Registry.{Catalog, resolve}

-- `PromptRoute`: its validator leaves these three shapes.
pub data PromptRoute : Type 0 where
  prompt_decision : String → String → Items → PromptRoute
  no_prompt : PromptRoute
  stalled : RunEvent → PromptRoute

-- `screen[n:]`
abbrev pub drop_text : ℕ → String → String
drop_text zero s = s
drop_text (suc n) String.[] = String.[]
drop_text (suc n) (String.◌∷◌ c s) = drop_text n s

unfoldable pub prompt_declaration_id_for_screen : String → Result String
prompt_declaration_id_for_screen screen = do
  raise_if (not (is_prompt_screen screen)) catalog_error
  ok ("prompts." +++ drop_text 7 screen)

abbrev pub unknown_screen_event : String → Option ℕ → Option ℕ → Timestamp → RunEvent
unknown_screen_event run_id turn step at = record {
  run_id = run_id;
  turn_number = turn;
  step_index = step;
  event_type = unknown_screen;
  occurred_at = at;
  detail = no_detail;
}

-- With the catalog, as the decision loop calls it.
unfoldable pub route_prompt :
    Catalog → ScreenIdentityResult → String → Option ℕ → Option ℕ → Timestamp → Result PromptRoute
unfolding prompt_declaration_id_for_screen
route_prompt catalog screen run_id turn step at =
    if screen.recognized
    then if screen.has_blocking_prompt
      then (do
        id ← prompt_declaration_id_for_screen screen.screen
        d ← resolve catalog id
        ok (prompt_decision id screen.screen screen.prompt_options))
      else ok no_prompt
    else ok (stalled (unknown_screen_event run_id turn step at))
