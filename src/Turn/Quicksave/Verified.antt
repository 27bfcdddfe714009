-- ===== src/Turn/Quicksave/Verified.antt =====
-- What the two reads of a saved file by saves/verify.py show.
use civ_sim_taskify.Prelude.{ℕ, String, ◌≡◌, Option, none, some, List, arith}
use civ_sim_taskify.Errors.{ok, >>=-eq-ok}
use civ_sim_taskify.Turn.State.{Deed, TurnCycleDependencies}
use civ_sim_taskify.Turn.Quicksave.{verify_save, quicksave_name, saved_size}

-- The saved game was asked for, and its file has one size in both reads.
pub record IsVerified (deps : TurnCycleDependencies) (ds : List Deed) (name : String) : Type 0 where
  pub size : ℕ
  pub first : deps.first_size ds name ≡ some size
  pub second : deps.second_size ds name ≡ some size

verified_size : (a b : Option ℕ) (n : ℕ) → verify_save a b ≡ ok n → (a ≡ some n) × (b ≡ some n)
unfolding verify_save
verified_size none b n h = absurd (cc)
verified_size (some x) none n h = absurd (cc)
verified_size (some x) (some y) n h = ground arith

module _ (deps : TurnCycleDependencies) (ds after : List Deed) (size : ℕ) where
  -- The game took the save, and its file is there and whole.
  pub size-IsVerified :
      saved_size deps ds after ≡ ok size
      → (deps.save_game ds (quicksave_name deps) ≡ ok tt)
        × IsVerified deps after (quicksave_name deps)
  size-IsVerified e =
      let (_, asked, m) = >>=-eq-ok (deps.save_game ds (quicksave_name deps)) _ e in
      let (a, b) = verified_size _ _ size m in
      (asked, record { size = size; first = a; second = b })
