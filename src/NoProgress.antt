-- ===== src/NoProgress.antt =====
-- civsim_harness/run/no_progress.py: the counter of consecutive steps without progress, and the
-- event of a turn that the counter ended.
pub mod Streak
mod Tests
use civ_sim_taskify.Prelude.{
  ℕ, zero, suc, ◌+◌, String, Bool, Option, some, List, [], ◌∷◌, ltb, leb, if◌then◌else◌,
}
use civ_sim_taskify.Errors.{Result, ok, err, value_error}
use civ_sim_taskify.Models.Run.{Timestamp}
use civ_sim_taskify.Models.Event.{RunEvent, turn_ended_on_no_progress, streak}
use civ_sim_taskify.Models.Turn.{StepProgress, changed_state, no_change, rejected}

pub record NoProgressTracker : Type 0 where
  pub limit : ℕ
  pub streak : ℕ

-- `NoProgressTracker(limit=…)` with `__post_init__`.
unfoldable pub new_tracker : ℕ → Result NoProgressTracker
new_tracker limit =
    if ltb limit 1 then err value_error else ok (record { limit = limit; streak = 0 })

unfoldable pub record_progress : NoProgressTracker → StepProgress → NoProgressTracker
record_progress t changed_state = record t { streak = 0 }
record_progress t no_change = record t { streak = t.streak + 1 }
record_progress t rejected = record t { streak = t.streak + 1 }

unfoldable pub tripped : NoProgressTracker → Bool
tripped t = leb t.limit t.streak

unfoldable pub build_no_progress_event : String → ℕ → Timestamp → ℕ → Option ℕ → RunEvent
build_no_progress_event run_id turn at final step = record {
  run_id = run_id;
  turn_number = some turn;
  step_index = step;
  event_type = turn_ended_on_no_progress;
  occurred_at = at;
  detail = streak final;
}

-- The tracker after the steps of a turn, in order.
unfoldable pub record_all : NoProgressTracker → List StepProgress → NoProgressTracker
record_all t [] = t
record_all t (p ∷ ps) = record_all (record_progress t p) ps
