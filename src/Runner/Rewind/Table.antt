-- ===== src/Runner/Rewind/Table.antt =====
-- store/sqlite_adapter.py: the rows of `turn_cycles` of one run, and how an attempt is superseded.
-- The branches of the run are given by the turns that they start from.
use civ_sim_taskify.Prelude.{
  ℕ, Bool, false, ◌&&◌, ◌||◌, Option, none, some, List, [], ◌∷◌, ◌==◌, if◌then◌else◌,
}
use civ_sim_taskify.Errors.{Result, ok, err, store_write_error, ◌>>=◌}
use civ_sim_taskify.Models.Turn.{abandoned}
use civ_sim_taskify.Store.Guard.{TurnCycle}

abbrev pub is_authoritative_at : ℕ → TurnCycle → Bool
is_authoritative_at turn tc = tc.turn_number == turn && tc.is_authoritative

-- `get_turn_cycle` with `authoritative_only`
unfoldable pub get_turn_cycle : List TurnCycle → ℕ → Option TurnCycle
get_turn_cycle [] turn = none
get_turn_cycle (tc ∷ tcs) turn =
    if is_authoritative_at turn tc then some tc else get_turn_cycle tcs turn

abbrev pub superseded : TurnCycle → TurnCycle
superseded tc = record tc { is_authoritative = false; outcome = abandoned }

abbrev pub is_attempt : ℕ → ℕ → TurnCycle → Bool
is_attempt turn attempt tc = tc.turn_number == turn && tc.attempt_index == attempt

abbrev pub with_row : TurnCycle → Result (List TurnCycle) → Result (List TurnCycle)
with_row tc r = r >>= λ tcs. ok (tc ∷ tcs)

unfoldable pub mark_attempt : ℕ → ℕ → List TurnCycle → Result (List TurnCycle)
mark_attempt turn attempt [] = err store_write_error
mark_attempt turn attempt (tc ∷ tcs) =
    if is_attempt turn attempt tc
    then ok (superseded tc ∷ tcs)
    else with_row tc (mark_attempt turn attempt tcs)

abbrev pub is_member : ℕ → List ℕ → Bool
is_member n [] = false
is_member n (m ∷ ms) = (m == n) || is_member n ms

unfoldable pub mark_turn_superseded : List ℕ → ℕ → ℕ → List TurnCycle → Result (List TurnCycle)
unfolding mark_attempt
mark_turn_superseded parent_turns turn attempt tcs =
    if is_member turn parent_turns then err store_write_error else mark_attempt turn attempt tcs
