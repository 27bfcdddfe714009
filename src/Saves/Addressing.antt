-- ===== src/Saves/Addressing.antt =====
-- saves/addressing.py: the save point of a turn, by the records of the store alone. What the store
-- lists for the run is a list; `report_save_missing` is in Resilience/Recovery.
pub mod Available
mod Tests
use civ_sim_taskify.Prelude.{
  ℕ, Bool, true, false, Option, none, some, List, [], ◌∷◌, ◌==◌, if◌then◌else◌,
}
use civ_sim_taskify.Errors.{Result, ok, err, save_addressing_error, raise_if, ◌>>=◌, ◌>>◌}
use civ_sim_taskify.Resilience.Recovery.{SavePoint, is_absent}

unfoldable pub find_save_point : List SavePoint → ℕ → Option SavePoint
find_save_point [] turn = none
find_save_point (save ∷ saves) turn =
    if save.turn_number == turn then some save else find_save_point saves turn

abbrev or_unrecorded : Option SavePoint → Result SavePoint
or_unrecorded none = err save_addressing_error
or_unrecorded (some save) = ok save

unfoldable pub resolve_save_point : List SavePoint → ℕ → Result SavePoint
unfolding find_save_point
resolve_save_point saves turn = or_unrecorded (find_save_point saves turn)

unfoldable pub require_available_save_point : List SavePoint → ℕ → Result SavePoint
unfolding resolve_save_point
require_available_save_point saves turn = do
  save ← resolve_save_point saves turn
  raise_if (is_absent save) save_addressing_error
  ok save
