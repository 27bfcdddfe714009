-- ===== src/Store/Guard/Tests.antt =====
-- civsim_harness/store/guard.py with a store that gives the attempt its number, and one that fails.
use civ_sim_taskify.Prelude.{ℕ, String, ◌≡◌, refl, inl, inr, false, true, [], ◌∷◌}
use civ_sim_taskify.Errors.{Result, ok, err, store_write_error}
use civ_sim_taskify.Models.Turn.{ended_by_agent}
use civ_sim_taskify.Store.Guard.{
  TurnCycle, TurnPersistedToken, write_turn_cycle, end_turn, write_then_advance,
  persist_turn_before_advance, advance_turn,
}
use civ_sim_taskify.Store.Guard.Order.{Called, write_then_advance_ends}

abbrev attempt : TurnCycle
attempt = record {
  turn_cycle_id = "cycle-7";
  run_id = "run-1";
  turn_number = 12;
  attempt_index = 1;
  is_authoritative = true;
  save_point_id = 12;
  step_count = 3;
  outcome = ended_by_agent;
  final_no_progress_streak = 0;
  visually_degraded = false;
  started_at = 5;
  ended_at = 9;
}

abbrev token : TurnPersistedToken
token = record { run_id = "run-1"; turn_number = 12; attempt_index = 1; turn_cycle_id = "cycle-7" }

abbrev write : TurnCycle → Result String
write tc = ok tc.turn_cycle_id

abbrev broken : TurnCycle → Result String
broken tc = err store_write_error

abbrev end : TurnPersistedToken → Result ℕ
end t = ok (t.turn_number)

token-Called : Called (end_turn token) (write_then_advance write attempt end).1
unfolding write_then_advance persist_turn_before_advance advance_turn
token-Called = inr (inl refl)

write_then_advance_ends_example :
    (write attempt ≡ ok "cycle-7")
    × (token.run_id ≡ "run-1")
    × (token.turn_number ≡ 12)
    × (token.attempt_index ≡ 1)
    × ((write_then_advance write attempt end).1 ≡ write_turn_cycle attempt ∷ end_turn token ∷ [])
    × ((write_then_advance write attempt end).0 ≡ ok 12)
write_then_advance_ends_example = write_then_advance_ends write attempt end token token-Called
