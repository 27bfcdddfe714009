-- ===== src/Saves/Headroom.antt =====
-- civsim_harness/saves/headroom.py: the estimated footprint of a run and the check of free space.
-- The host's answer for the free bytes is an argument, and the floor is a whole number of
-- gigabytes.
pub mod Fits
mod Tests
use civ_sim_taskify.Prelude.{
  ℕ, ◌+◌, ◌*◌, String, Bool, true, false, Option, none, some, ltb, if◌then◌else◌,
}
use civ_sim_taskify.Errors.{Result, ok, err, disk_headroom_error, raise_if, ◌>>=◌, ◌>>◌}
use civ_sim_taskify.Models.Run.{Timestamp}
use civ_sim_taskify.Models.Event.{RunEvent, disk_headroom_low, no_detail}
use civ_sim_taskify.Stop.{StopCondition, at_turn, on_game_outcome, on_operator_stop}

abbrev pub bytes_per_gb : ℕ
bytes_per_gb = 1073741824

-- DEFAULT_BYTES_PER_SAVE and its neighbours.
pub record Sizes : Type 0 where
  pub bytes_per_save : ℕ
  pub bytes_per_capture : ℕ
  pub steps_per_turn_estimate : ℕ
  pub default_turns_for_open_ended_stop : ℕ

abbrev pub default_sizes : Sizes
default_sizes = record {
  bytes_per_save = 52428800;
  bytes_per_capture = 2097152;
  steps_per_turn_estimate = 20;
  default_turns_for_open_ended_stop = 300;
}

pub record FootprintEstimate : Type 0 where
  pub estimated_turns : ℕ
  pub estimated_saves_bytes : ℕ
  pub estimated_captures_bytes : ℕ

unfoldable pub total_bytes : FootprintEstimate → ℕ
total_bytes f = f.estimated_saves_bytes + f.estimated_captures_bytes

abbrev pub turns_of : StopCondition → ℕ → ℕ
turns_of (at_turn n) open_ended = n
turns_of on_game_outcome open_ended = open_ended
turns_of on_operator_stop open_ended = open_ended

unfoldable pub estimate_footprint : StopCondition → Sizes → FootprintEstimate
estimate_footprint stop sizes =
    let turns = turns_of stop sizes.default_turns_for_open_ended_stop in
    record {
      estimated_turns = turns;
      estimated_saves_bytes = turns * sizes.bytes_per_save;
      estimated_captures_bytes = turns * sizes.steps_per_turn_estimate * sizes.bytes_per_capture;
    }

abbrev pub too_large : ℕ → Option FootprintEstimate → Bool
too_large free none = false
too_large free (some f) = ltb free (f.estimated_saves_bytes + f.estimated_captures_bytes)

unfoldable pub check_headroom : ℕ → ℕ → Option FootprintEstimate → Result (Unit {0})
check_headroom free_bytes min_free_disk_gb footprint = do
  raise_if (ltb free_bytes (min_free_disk_gb * bytes_per_gb)) disk_headroom_error
  raise_if (too_large free_bytes footprint) disk_headroom_error
  ok tt

unfoldable pub build_disk_headroom_event : String → Timestamp → Option ℕ → RunEvent
build_disk_headroom_event run_id at turn = record {
  run_id = run_id;
  turn_number = turn;
  step_index = none;
  event_type = disk_headroom_low;
  occurred_at = at;
  detail = no_detail;
}
