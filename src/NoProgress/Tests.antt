-- ===== src/NoProgress/Tests.antt =====
-- civsim_harness/run/no_progress.py on a few steps.
use civ_sim_taskify.Prelude.{◌≤◌, ◌≡◌, refl, ◌↔◌, true, [], ◌∷◌, ◌++◌}
use civ_sim_taskify.Errors.{ok, err, value_error}
use civ_sim_taskify.Models.Turn.{changed_state, no_change, rejected}
use civ_sim_taskify.NoProgress.{
  NoProgressTracker, new_tracker, record_progress, tripped, record_all,
}
use civ_sim_taskify.NoProgress.Streak.{streak_since_change}

abbrev fresh : NoProgressTracker
fresh = record { limit = 2; streak = 0 }

new_tracker_starts : new_tracker 2 ≡ ok fresh
unfolding new_tracker
new_tracker_starts = refl

new_tracker_needs_limit : new_tracker 0 ≡ err value_error
unfolding new_tracker
new_tracker_needs_limit = refl

rejected_counts : tripped (record_all fresh (no_change ∷ rejected ∷ [])) ≡ true
unfolding tripped record_all record_progress
rejected_counts = refl

streak_since_change_example :
    ((record_all fresh ((rejected ∷ []) ++ (changed_state ∷ (no_change ∷ rejected ∷ [])))).streak
      ≡ 2)
    × ((tripped
            (record_all fresh ((rejected ∷ []) ++ (changed_state ∷ (no_change ∷ rejected ∷ []))))
          ≡ true)
        ↔ (2 ≤ 2))
streak_since_change_example =
    streak_since_change fresh (rejected ∷ []) (no_change ∷ rejected ∷ []) tt
