-- ===== src/Observe/Screen.antt =====
-- observe/screen_identity.py: what a value of `game.screen_state` says about the screen. Python's
-- `str`, and `tuple` of a value that is no list, are parameters.
use civ_sim_taskify.Prelude.{
  String, Bool, true, false, not, ◌&&◌, Option, none, some, if◌then◌else◌,
}
use civ_sim_taskify.Errors.{Result, ok, err, observation_assembly_error, raise_if, ◌>>=◌, ◌>>◌}
use civ_sim_taskify.Models.Value.{Value, arr, obj, Items, nil, Fields}
use civ_sim_taskify.Predicate.Symbols.{starts_with}
use civ_sim_taskify.Predicate.Values.{get_field, truthy, codes}

pub record Coercions : Type 0 where
  pub str : Value → String
  pub tuple : Value → Result Items

abbrev pub prompt_screen_prefix : String
prompt_screen_prefix = "prompt."

unfoldable pub is_prompt_screen : String → Bool
is_prompt_screen screen = starts_with (codes prompt_screen_prefix) (codes screen)

pub record ScreenIdentityResult : Type 0 where
  pub screen : String
  pub raw_screen_id : String
  pub recognized : Bool
  pub has_blocking_prompt : Bool
  pub prompt_options : Items

abbrev unknown_result : String → ScreenIdentityResult
unknown_result raw = record {
  screen = "unknown";
  raw_screen_id = raw;
  recognized = false;
  has_blocking_prompt = false;
  prompt_options = nil;
}

abbrev str_or : (Value → String) → String → Option Value → String
str_or str d none = d
str_or str d (some v) = str v

abbrev options_of : Coercions → Option Value → Result Items
options_of c none = ok nil
options_of c (some (arr xs)) = ok xs
options_of c (some v) = if truthy v then c.tuple v else ok nil

-- The recognized screen; `__post_init__` refuses a prompt on a screen that is not named as one.
abbrev recognized_result : String → String → Bool → Items → Result ScreenIdentityResult
recognized_result screen raw blocking options = do
  raise_if (blocking && not (is_prompt_screen screen)) observation_assembly_error
  ok (record {
    screen = screen;
    raw_screen_id = raw;
    recognized = true;
    has_blocking_prompt = blocking;
    prompt_options = options;
  })

abbrev of_fields :
    Coercions → Fields → Option Value → Option Value → Option Value → Result ScreenIdentityResult
of_fields c fs (some screen) (some recognized) (some blocking) =
    let name = c.str screen in
    let raw = str_or c.str name (get_field fs "raw_screen_id") in
    if truthy recognized
    then (do
      options ← if truthy blocking then options_of c (get_field fs "prompt_options") else ok nil
      recognized_result name raw (truthy blocking) options)
    else ok (unknown_result raw)
of_fields c fs screen recognized blocking = err observation_assembly_error

unfoldable pub interpret_screen_state : Coercions → Value → Result ScreenIdentityResult
unfolding is_prompt_screen
interpret_screen_state c (obj fs) =
    of_fields c fs (get_field fs "screen") (get_field fs "recognized")
      (get_field fs "has_blocking_prompt")
interpret_screen_state c v = err observation_assembly_error
