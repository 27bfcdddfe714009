-- ===== src/Saves/Addressing/Tests.antt =====
-- saves/addressing.py on a run with two save points, the second of them missing.
use civ_sim_taskify.Prelude.{◌≡◌, refl, false, true, List, [], ◌∷◌}
use civ_sim_taskify.Errors.{ok, err, save_addressing_error}
use civ_sim_taskify.Resilience.Recovery.{SavePoint, retained, is_absent}
use civ_sim_taskify.Saves.Addressing.{
  find_save_point, resolve_save_point, require_available_save_point,
}
use civ_sim_taskify.Saves.Addressing.Available.{IsFirst, require_available_save_point-IsFirst}

abbrev third : SavePoint
third = record {
  save_point_id = 30;
  run_id = "run-1";
  turn_number = 3;
  save_name = "run-1_turn-3";
  taken_at = 7;
  verified = true;
  retention_status = retained;
  missing = false;
}

abbrev fourth : SavePoint
fourth = record third { save_point_id = 40; turn_number = 4; missing = true }

abbrev saves : List SavePoint
saves = fourth ∷ third ∷ []

third_available : require_available_save_point saves 3 ≡ ok third
unfolding require_available_save_point resolve_save_point find_save_point
third_available = refl

fourth_missing : require_available_save_point saves 4 ≡ err save_addressing_error
unfolding require_available_save_point resolve_save_point find_save_point
fourth_missing = refl

require_available_save_point-IsFirst_example : IsFirst saves 3 third × (is_absent third ≡ false)
require_available_save_point-IsFirst_example =
    require_available_save_point-IsFirst saves 3 third third_available
