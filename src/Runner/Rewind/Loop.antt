-- ===== src/Runner/Rewind/Loop.antt =====
-- What the loop over the turns of a rewind leaves in the table.
use civ_sim_taskify.Prelude.{
  ℕ, zero, suc, ◌+◌, ◌≤◌, ◌<◌, ◌≡◌, refl, subst, ◌⊎◌, inl, inr, Bool-cases, none, some, Option,
  List, [], ◌∷◌, arith,
}
use civ_sim_taskify.Errors.{Error, Result, ok, err}
use civ_sim_taskify.Store.Guard.{TurnCycle}
use civ_sim_taskify.Run.Actions.{Outcome, failed, returned, and_then}
use civ_sim_taskify.Runner.Rewind.Table.{
  is_authoritative_at, get_turn_cycle, is_member, mark_turn_superseded,
}
use civ_sim_taskify.Runner.Rewind.{kept, of_record, supersede_turns}
use civ_sim_taskify.Runner.Rewind.Marks.{
  IsTable, Kept, NoneAt, all_same, Kept-trans, Kept-IsTable, Kept-NoneAt, mark_attempt-Kept,
}

le_cases : (a b : ℕ) → a ≤ b → (a ≡ b) ⊎ (suc a ≤ b)
le_cases a b h = ground arith

module _ (from_turn : ℕ) (parent_turns : List ℕ) where
  -- What the loop leaves: all that it came by is superseded, unless it is refused.
  abbrev pub Supersedes :
      ℕ → ℕ → List TurnCycle → Outcome Error (Unit {0}) × List TurnCycle → Type 0
  Supersedes turn left tcs (failed e, new) = Kept from_turn tcs new
  Supersedes turn left tcs (returned u, new) =
      Kept from_turn tcs new × ((t : ℕ) → turn ≤ t → t < turn + left → NoneAt t new)

  -- One turn of the loop.
  abbrev One : ℕ → List TurnCycle → Outcome Error (Unit {0}) × List TurnCycle → Type 0
  One turn tcs (failed e, new) = Kept from_turn tcs new
  One turn tcs (returned u, new) = Kept from_turn tcs new × NoneAt turn new

  none-NoneAt : (turn : ℕ) (tcs : List TurnCycle) → get_turn_cycle tcs turn ≡ none → NoneAt turn tcs
  unfolding get_turn_cycle
  none-NoneAt turn [] e = tt
  none-NoneAt turn (tc ∷ tcs) e = elim (Bool-cases (is_authoritative_at turn tc)) [
    | inl now ↦ absurd (let q : some tc ≡ none = rw now at e in cc)
    | inr other ↦ (other, none-NoneAt turn tcs (rw other at e))
  ]

  marked-One :
      (turn : ℕ) (tcs : List TurnCycle) (found : TurnCycle) (r : Result (List TurnCycle))
      → from_turn ≤ turn
      → IsTable tcs
      → get_turn_cycle tcs turn ≡ some found
      → mark_turn_superseded parent_turns turn found.attempt_index tcs ≡ r
      → One turn tcs (kept parent_turns tcs r)
  unfolding mark_turn_superseded
  marked-One turn tcs found (err e) late t g m = all_same from_turn tcs
  marked-One turn tcs found (ok new) late t g m = elim (Bool-cases (is_member turn parent_turns)) [
    | inl refused ↦ absurd (let q : err _ ≡ ok new = rw refused at m in cc)
    | inr free ↦ mark_attempt-Kept from_turn turn late found tcs new t g (rw free at m)
  ]

  one :
      (turn : ℕ) (tcs : List TurnCycle)
      → from_turn ≤ turn
      → IsTable tcs
      → (o : Option TurnCycle) → get_turn_cycle tcs turn ≡ o
      → One turn tcs (of_record parent_turns turn o tcs)
  one turn tcs late t none g = (all_same from_turn tcs, none-NoneAt turn tcs g)
  one turn tcs late t (some found) g = marked-One turn tcs found _ late t g refl

  then-One :
      (turn left : ℕ) (tcs : List TurnCycle) (r : Outcome Error (Unit {0}) × List TurnCycle)
      → One turn tcs r
      → ((new : List TurnCycle)
          → Kept from_turn tcs new
          → Supersedes (suc turn) left new (supersede_turns parent_turns (suc turn) left new))
      → Supersedes turn
          (suc left)
          tcs
          (and_then r (λ _. supersede_turns parent_turns (suc turn) left))
  then-One turn left tcs (failed e, new) h k = h
  then-One turn left tcs (returned u, new) (h, n) k =
      join (supersede_turns parent_turns (suc turn) left new) (k new h)
    where
      join :
          (r : Outcome Error (Unit {0}) × List TurnCycle)
          → Supersedes (suc turn) left new r
          → Supersedes turn (suc left) tcs r
      join (failed e, last) l = Kept-trans from_turn h l
      join (returned v, last) (l, rest) = (
        Kept-trans from_turn h l,
        λ t low high. elim (le_cases turn t low) [
          | inl here ↦ subst (λ z. NoneAt z last) here (Kept-NoneAt from_turn turn l n)
          | inr above ↦ rest t above (omega arith)
        ],
      )

  pub supersede_turns-Supersedes :
      (turn left : ℕ) (tcs : List TurnCycle)
      → from_turn ≤ turn
      → IsTable tcs
      → Supersedes turn left tcs (supersede_turns parent_turns turn left tcs)
  unfolding supersede_turns
  supersede_turns-Supersedes turn zero tcs late t =
      (all_same from_turn tcs, λ u low high. absurd (omega arith))
  supersede_turns-Supersedes turn (suc left) tcs late t =
      then-One turn left tcs _ (one turn tcs late t _ refl) (λ new k.
        supersede_turns-Supersedes (suc turn) left new (omega arith) (Kept-IsTable from_turn k t))
