-- ===== src/Store/Guard/Order.antt =====
-- No turn is ended that was not written.
use civ_sim_taskify.Prelude.{String, ◌≡◌, refl, sym, ◌⊎◌, List, [], ◌∷◌, arith}
use civ_sim_taskify.Errors.{Error, Result, ok, err, ok-path}
use civ_sim_taskify.Store.Guard.{
  TurnCycle, TurnPersistedToken, Call, write_turn_cycle, end_turn, persist_turn_before_advance,
  advance_turn, minted, and_then, write_then_advance,
}

-- The call is one of the list.
abbrev pub Called : Call → List Call → Type 0
Called c [] = ⊥
Called c (d ∷ ds) = (c ≡ d) ⊎ Called c ds

module _ {ℓ} {T : Type ℓ} (write : TurnCycle → Result String) (tc : TurnCycle)
    (end : TurnPersistedToken → Result T) where
  -- If a turn is ended, the store has acknowledged the write of just this attempt: the token has
  -- the attempt's run, turn and index and the id that the store returned, the write was called
  -- first, and nothing else was called.
  pub write_then_advance_ends :
      (t : TurnPersistedToken)
      → Called (end_turn t) (write_then_advance write tc end).1
      → (write tc ≡ ok t.turn_cycle_id)
        × (t.run_id ≡ tc.run_id)
        × (t.turn_number ≡ tc.turn_number)
        × (t.attempt_index ≡ tc.attempt_index)
        × ((write_then_advance write tc end).1 ≡ write_turn_cycle tc ∷ end_turn t ∷ [])
        × ((write_then_advance write tc end).0 ≡ end t)
  unfolding write_then_advance persist_turn_before_advance advance_turn
  write_then_advance_ends t c = ground arith

  -- A failed write is raised as it is, and the turn is not ended.
  pub write_then_advance_halts :
      (e : Error)
      → write tc ≡ err e
      → write_then_advance write tc end ≡ (err e, write_turn_cycle tc ∷ [])
  unfolding write_then_advance persist_turn_before_advance advance_turn
  write_then_advance_halts e h = ground arith

-- A guard that returns what the caller makes of a token has the store's acknowledgement.
module _ {T : Type 0} (tc : TurnCycle) (make : TurnPersistedToken → T) (m : T) where
  acknowledged :
      (r : Result String)
      → (and_then
          (minted tc r, write_turn_cycle tc ∷ [])
          (λ token. advance_turn token (λ t. ok (make t)))).0
        ≡ ok m
      → (token : TurnPersistedToken) × (m ≡ make token) × (r ≡ ok token.turn_cycle_id)
  unfolding advance_turn
  acknowledged (err e) h = absurd (cc)
  acknowledged (ok id) h = (
    record {
      run_id = tc.run_id;
      turn_number = tc.turn_number;
      attempt_index = tc.attempt_index;
      turn_cycle_id = id;
    },
    sym (ok-path h),
    refl,
  )

  pub write_then_advance_makes :
      (write : TurnCycle → Result String)
      → (write_then_advance write tc (λ t. ok (make t))).0 ≡ ok m
      → (token : TurnPersistedToken) × (m ≡ make token) × (write tc ≡ ok token.turn_cycle_id)
  unfolding write_then_advance persist_turn_before_advance
  write_then_advance_makes write h = acknowledged (write tc) h
