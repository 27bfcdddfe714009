-- ===== src/Saves/Headroom/Fits.antt =====
-- When the check of free space passes.
use civ_sim_taskify.Prelude.{ℕ, ◌*◌, ◌≤◌, ◌≡◌, ◌↔◌, ◌⊎◌, none, some, arith, tests}
use native.Mathlib.Nat.{mul-le-mul_right}
use civ_sim_taskify.Errors.{ok, err, disk_headroom_error}
use civ_sim_taskify.Stop.{at_turn}
use civ_sim_taskify.Saves.Headroom.{
  FootprintEstimate, Sizes, check_headroom, estimate_footprint, total_bytes, bytes_per_gb,
}

-- The preflight check with the estimated footprint passes exactly when the free space is at least
-- the floor and at least what the estimated saves and captures take, and every other outcome is
-- `DiskHeadroomError`; a check that passes with a footprint passes without one.
pub check_headroom-eq-ok_iff :
    (free floor : ℕ) (f : FootprintEstimate)
    → ((check_headroom free floor (some f) ≡ ok tt)
        ↔ ((floor * bytes_per_gb ≤ free) × (total_bytes f ≤ free)))
      × ((check_headroom free floor (some f) ≡ ok tt)
          ⊎ (check_headroom free floor (some f) ≡ err disk_headroom_error))
      × (check_headroom free floor (some f) ≡ ok tt → check_headroom free floor none ≡ ok tt)
unfolding check_headroom total_bytes
check_headroom-eq-ok_iff free floor f = (
  (λ h. grind (arith, tests), λ h. grind (arith, tests)),
  grind (arith, tests),
  λ h. grind (arith, tests),
)

-- A run that stops at a turn is not estimated to need more space than one that stops at a later
-- turn, so free space that fits the longer run fits the shorter one.
pub estimate_footprint_mono :
    (m n free floor : ℕ) (sizes : Sizes)
    → m ≤ n
    → check_headroom free floor (some (estimate_footprint (at_turn n) sizes)) ≡ ok tt
    → check_headroom free floor (some (estimate_footprint (at_turn m) sizes)) ≡ ok tt
unfolding check_headroom estimate_footprint
estimate_footprint_mono m n free floor sizes le h =
    let saves : m * sizes.bytes_per_save ≤ n * sizes.bytes_per_save =
      mul-le-mul_right sizes.bytes_per_save le in
    let captures : m * sizes.steps_per_turn_estimate * sizes.bytes_per_capture
        ≤ n * sizes.steps_per_turn_estimate * sizes.bytes_per_capture =
      mul-le-mul_right sizes.bytes_per_capture
        (mul-le-mul_right sizes.steps_per_turn_estimate le) in
    grind (arith, tests, saves, captures)
