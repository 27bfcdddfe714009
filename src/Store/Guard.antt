-- ===== src/Store/Guard.antt =====
-- civsim_harness/store/guard.py: the write of a turn and the end of the turn, in that order. The
-- store's `write_turn_cycle` and the caller's `end_turn` are parameters, and what is called is
-- returned as a list.
pub mod Order
mod Tests
use civ_sim_taskify.Prelude.{ℕ, String, Bool, Option, List, [], ◌∷◌}
use civ_sim_taskify.Errors.{Result, ok, err}
use civ_sim_taskify.Models.Run.{Timestamp}
use civ_sim_taskify.Models.Turn.{TurnOutcome}

-- models/turn.py, less the yields, the time of the write and the bounds of the fields.
pub record TurnCycle : Type 0 where
  pub turn_cycle_id : String
  pub run_id : String
  pub turn_number : ℕ
  pub attempt_index : ℕ
  pub is_authoritative : Bool
  pub save_point_id : ℕ
  pub step_count : ℕ
  pub outcome : TurnOutcome
  pub final_no_progress_streak : ℕ
  pub visually_degraded : Bool
  pub started_at : Timestamp
  pub ended_at : Timestamp

pub record TurnPersistedToken : Type 0 where
  pub run_id : String
  pub turn_number : ℕ
  pub attempt_index : ℕ
  pub turn_cycle_id : String

pub data Call : Type 0 where
  write_turn_cycle : TurnCycle → Call
  end_turn : TurnPersistedToken → Call

abbrev pub minted : TurnCycle → Result String → Result TurnPersistedToken
minted tc (err e) = err e
minted tc (ok id) = ok (record {
  run_id = tc.run_id;
  turn_number = tc.turn_number;
  attempt_index = tc.attempt_index;
  turn_cycle_id = id;
})

unfoldable pub persist_turn_before_advance :
    (TurnCycle → Result String) → TurnCycle → Result TurnPersistedToken × List Call
persist_turn_before_advance write tc = (minted tc (write tc), write_turn_cycle tc ∷ [])

unfoldable pub advance_turn {ℓ} :
    {T : Type ℓ} → TurnPersistedToken → (TurnPersistedToken → Result T) → Result T × List Call
advance_turn token end = (end token, end_turn token ∷ [])

abbrev pub and_then {ℓ} :
    {T : Type ℓ}
    → Result TurnPersistedToken × List Call
    → (TurnPersistedToken → Result T × List Call)
    → Result T × List Call
and_then (err e, calls) next = (err e, calls)
and_then (ok token, []) next = next token
and_then (ok token, c ∷ calls) next =
    let rest = and_then (ok token, calls) next in (rest.0, c ∷ rest.1)

unfoldable pub write_then_advance {ℓ} :
    {T : Type ℓ}
    → (TurnCycle → Result String)
    → TurnCycle
    → (TurnPersistedToken → Result T)
    → Result T × List Call
write_then_advance write tc end =
    and_then (persist_turn_before_advance write tc) (λ token. advance_turn token end)
