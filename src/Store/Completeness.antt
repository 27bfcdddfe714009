-- ===== src/Store/Completeness.antt =====
-- store/completeness.py: whether the record of a run is complete, derived from the gaps that the
-- store reports and kept on the record of the run.
pub mod Owed
mod Tests
use Prim.Native.Nat.{max}
use civ_sim_taskify.Prelude.{
  ℕ, zero, suc, ◌+◌, ◌-◌, String, Bool, true, false, not, ◌&&◌, ◌||◌, Option, none, some, List, [],
  ◌∷◌, leb, ◌==◌, if◌then◌else◌,
}
use civ_sim_taskify.Models.Run.{Run, RecordCompletenessStatus, complete, has_gaps, unknown}

-- The reads of the store for one run: the turns of its save points, its record, the turns with no
-- authoritative attempt and the step indices that an attempted turn lacks.
pub record Reads : Type 0 where
  pub list_save_points : List ℕ
  pub get_run : Option Run
  pub turn_gaps : List ℕ
  pub step_gaps : ℕ → List ℕ

abbrev branch_point : Option String → Option ℕ → ℕ
branch_point (some parent) (some turn) = turn
branch_point (some parent) none = 1
branch_point none turn = 1

unfoldable pub first_owed_turn : Option Run → ℕ
first_owed_turn none = 1
first_owed_turn (some r) = branch_point r.parent_run_id r.parent_turn

abbrev pub any_from : ℕ → List ℕ → Bool
any_from floor [] = false
any_from floor (g ∷ gs) = leb floor g || any_from floor gs

abbrev pub is_empty : List ℕ → Bool
is_empty [] = true
is_empty (x ∷ xs) = false

abbrev pub highest : List ℕ → ℕ
highest [] = 0
highest (t ∷ ts) = max t (highest ts)

-- The loop over `range(floor, highest_turn + 1)`, by the number of turns that are left.
unfoldable pub any_step_gap : (ℕ → List ℕ) → ℕ → ℕ → Bool
any_step_gap gaps turn zero = false
any_step_gap gaps turn (suc left) = not (is_empty (gaps turn)) || any_step_gap gaps (turn + 1) left

unfoldable pub record_completeness_status : Reads → RecordCompletenessStatus
unfolding first_owed_turn any_step_gap
record_completeness_status reads =
    let floor = first_owed_turn reads.get_run in
    if is_empty reads.list_save_points
    then unknown
    else if any_from floor reads.turn_gaps
    then has_gaps
    else if any_step_gap reads.step_gaps floor (highest reads.list_save_points + 1 - floor)
    then has_gaps
    else complete

abbrev with_status : RecordCompletenessStatus → Option Run → Option Run
with_status s none = none
with_status s (some r) = some (record r { record_completeness_status = s })

-- The status, and the record of the run: `update_run` of a status that is the old one changes
-- nothing, and an unknown run stays unknown.
unfoldable pub refresh_run_completeness : Reads → RecordCompletenessStatus × Option Run
unfolding record_completeness_status
refresh_run_completeness reads =
    let status = record_completeness_status reads in (status, with_status status reads.get_run)
