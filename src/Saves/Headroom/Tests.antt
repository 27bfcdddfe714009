-- ===== src/Saves/Headroom/Tests.antt =====
-- civsim_harness/saves/headroom.py on a run of fifty turns.
use civ_sim_taskify.Prelude.{◌*◌, ◌≤◌, ◌≡◌, refl, ◌↔◌, ◌⊎◌, some, none, arith}
use civ_sim_taskify.Errors.{ok, err, disk_headroom_error}
use civ_sim_taskify.Stop.{at_turn}
use civ_sim_taskify.Saves.Headroom.{
  FootprintEstimate, default_sizes, estimate_footprint, check_headroom, total_bytes, bytes_per_gb,
}
use civ_sim_taskify.Saves.Headroom.Fits.{check_headroom-eq-ok_iff}

abbrev fifty : FootprintEstimate
fifty = record {
  estimated_turns = 50;
  estimated_saves_bytes = 2621440000;
  estimated_captures_bytes = 2097152000;
}

fifty_estimated : estimate_footprint (at_turn 50) default_sizes ≡ fifty
unfolding estimate_footprint
fifty_estimated = refl

fifty_fits :
    check_headroom 5368709120 4 (some (estimate_footprint (at_turn 50) default_sizes)) ≡ ok tt
unfolding check_headroom estimate_footprint
fifty_fits = refl

check_headroom-eq-ok_iff_example :
    ((check_headroom 5368709120 4 (some fifty) ≡ ok tt)
      ↔ ((4 * bytes_per_gb ≤ 5368709120) × (total_bytes fifty ≤ 5368709120)))
    × ((check_headroom 5368709120 4 (some fifty) ≡ ok tt)
        ⊎ (check_headroom 5368709120 4 (some fifty) ≡ err disk_headroom_error))
    × (check_headroom 5368709120 4 (some fifty) ≡ ok tt → check_headroom 5368709120 4 none ≡ ok tt)
check_headroom-eq-ok_iff_example = check_headroom-eq-ok_iff 5368709120 4 fifty

forty_below_fifty : 40 ≤ 50
forty_below_fifty = omega arith
