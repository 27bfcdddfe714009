-- ===== src/Runner/Rewind/Marks.antt =====
-- What superseding attempts leaves in the table, whose rows are unique by turn and attempt and have
-- one authoritative attempt at most for each turn.
use civ_sim_taskify.Prelude.{
  ℕ, ◌≤◌, ◌≡◌, refl, sym, subst, true, false, inl, inr, Bool-cases, none, some, List, [], ◌∷◌, All,
  arith,
}
use civ_sim_taskify.Errors.{ok, >>=-eq-ok}
use civ_sim_taskify.Store.Guard.{TurnCycle}
use civ_sim_taskify.Runner.Rewind.Table.{
  is_authoritative_at, get_turn_cycle, superseded, is_attempt, mark_attempt, with_row,
}

pub record IsApart (a b : TurnCycle) : Type 0 where
  pub attempts : a.turn_number ≡ b.turn_number → ¬ (a.attempt_index ≡ b.attempt_index)
  pub one : a.turn_number ≡ b.turn_number → a.is_authoritative ≡ true → b.is_authoritative ≡ false

abbrev pub IsTable : List TurnCycle → Type 0
IsTable [] = Unit
IsTable (tc ∷ tcs) = All (IsApart tc) tcs × IsTable tcs

-- Every row is there and as it was, or is an authoritative attempt of the turn or a later one and
-- is now superseded.
pub data Kept (from_turn : ℕ) : List TurnCycle → List TurnCycle → Type 0 where
  no_rows : Kept from_turn [] []
  same :
      {tcs new : List TurnCycle} (tc : TurnCycle)
      → Kept from_turn tcs new
      → Kept from_turn (tc ∷ tcs) (tc ∷ new)
  marks :
      {tcs new : List TurnCycle} (tc : TurnCycle)
      → from_turn ≤ tc.turn_number
      → tc.is_authoritative ≡ true
      → Kept from_turn tcs new
      → Kept from_turn (tc ∷ tcs) (superseded tc ∷ new)

-- No authoritative attempt at the turn.
abbrev pub NoneAt : ℕ → List TurnCycle → Type 0
NoneAt turn tcs = All (λ tc. is_authoritative_at turn tc ≡ false) tcs

pub get-NoneAt :
    (turn : ℕ) (tcs : List TurnCycle) → NoneAt turn tcs → get_turn_cycle tcs turn ≡ none
unfolding get_turn_cycle
get-NoneAt turn [] h = refl
get-NoneAt turn (tc ∷ tcs) (h, hs) = rw h (get-NoneAt turn tcs hs)

module _ (from_turn : ℕ) where
  pub all_same : (tcs : List TurnCycle) → Kept from_turn tcs tcs
  all_same [] = no_rows
  all_same (tc ∷ tcs) = same tc (all_same tcs)

  pub Kept-trans :
      {a b c : List TurnCycle} → Kept from_turn a b → Kept from_turn b c → Kept from_turn a c
  Kept-trans no_rows no_rows = no_rows
  Kept-trans (same tc k) (same _ l) = same tc (Kept-trans k l)
  Kept-trans (same tc k) (marks _ late now l) = marks tc late now (Kept-trans k l)
  Kept-trans (marks tc late now k) (same _ l) = marks tc late now (Kept-trans k l)
  Kept-trans (marks tc late now k) (marks _ _ _ l) = marks tc late now (Kept-trans k l)

  Kept-IsApart :
      {tcs new : List TurnCycle} (a : TurnCycle)
      → Kept from_turn tcs new
      → All (IsApart a) tcs
      → All (IsApart a) new
  Kept-IsApart a no_rows h = h
  Kept-IsApart a (same tc k) (h, hs) = (h, Kept-IsApart a k hs)
  Kept-IsApart a (marks tc late now k) (h, hs) =
      (record { attempts = h.attempts; one = λ _ _. refl }, Kept-IsApart a k hs)

  superseded-IsApart :
      (a : TurnCycle) (tcs : List TurnCycle)
      → All (IsApart a) tcs
      → All (IsApart (superseded a)) tcs
  superseded-IsApart a [] h = h
  superseded-IsApart a (tc ∷ tcs) (h, hs) =
      (record { attempts = h.attempts; one = λ _ e. absurd (cc) }, superseded-IsApart a tcs hs)

  pub Kept-IsTable : {tcs new : List TurnCycle} → Kept from_turn tcs new → IsTable tcs → IsTable new
  Kept-IsTable no_rows h = h
  Kept-IsTable (same tc k) (h, hs) = (Kept-IsApart tc k h, Kept-IsTable k hs)
  Kept-IsTable (marks tc late now k) (h, hs) =
      (superseded-IsApart tc _ (Kept-IsApart tc k h), Kept-IsTable k hs)

  pub Kept-NoneAt :
      {tcs new : List TurnCycle} (turn : ℕ)
      → Kept from_turn tcs new
      → NoneAt turn tcs
      → NoneAt turn new
  Kept-NoneAt turn no_rows h = h
  Kept-NoneAt turn (same tc k) (h, hs) = (h, Kept-NoneAt turn k hs)
  Kept-NoneAt turn (marks tc late now k) (h, hs) = (ground arith, Kept-NoneAt turn k hs)

IsApart-NoneAt :
    (turn : ℕ) (a : TurnCycle) (tcs : List TurnCycle)
    → is_authoritative_at turn a ≡ true
    → All (IsApart a) tcs
    → NoneAt turn tcs
IsApart-NoneAt turn a [] now h = h
IsApart-NoneAt turn a (tc ∷ tcs) now (h, hs) =
    (grind (arith, h.one), IsApart-NoneAt turn a tcs now hs)

at_turn : {turn : ℕ} (tc : TurnCycle) → is_authoritative_at turn tc ≡ true → tc.turn_number ≡ turn
at_turn tc now = ground arith

-- The row that is found is of the turn and one of the table.
found-IsApart :
    (turn : ℕ) (a found : TurnCycle) (tcs : List TurnCycle)
    → get_turn_cycle tcs turn ≡ some found
    → All (IsApart a) tcs
    → IsApart a found × (found.turn_number ≡ turn)
unfolding get_turn_cycle
found-IsApart turn a found [] e h = absurd (cc)
found-IsApart turn a found (tc ∷ tcs) e (h, hs) = elim (Bool-cases (is_authoritative_at turn tc)) [
  | inl now ↦
      let q : some tc ≡ some found = rw now at e in
      let same_row : tc ≡ found = cc in
      subst (λ z. IsApart a z × (z.turn_number ≡ turn)) same_row (h, at_turn tc now)
  | inr other ↦ found-IsApart turn a found tcs (rw other at e) hs
]

module _ (from_turn turn : ℕ) (late : from_turn ≤ turn) where
  -- The row that is found is the one that is marked.
  pub mark_attempt-Kept :
      (found : TurnCycle) (tcs new : List TurnCycle)
      → IsTable tcs
      → get_turn_cycle tcs turn ≡ some found
      → mark_attempt turn found.attempt_index tcs ≡ ok new
      → Kept from_turn tcs new × NoneAt turn new
  unfolding get_turn_cycle mark_attempt
  mark_attempt-Kept found [] new t e m = absurd (cc)
  mark_attempt-Kept found (tc ∷ tcs) new (h, t) e m =
      elim (Bool-cases (is_authoritative_at turn tc)) [
        | inl now ↦
            let q : some tc ≡ some found = rw now at e in
            let same_row : tc ≡ found = cc in
            let hit : is_attempt turn found.attempt_index tc ≡ true = ground (arith, same_row) in
            let r : ok (superseded tc ∷ tcs) ≡ ok new = rw hit at m in
            let done : superseded tc ∷ tcs ≡ new = cc in
            subst (λ z. Kept from_turn (tc ∷ tcs) z × NoneAt turn z) done
              (
                marks tc (subst (λ z. from_turn ≤ z) (sym (at_turn tc now)) late)
                    (ground (arith, now)) (all_same from_turn tcs),
                (ground arith, IsApart-NoneAt turn tc tcs now h),
              )
        | inr other ↦
            let rest : get_turn_cycle tcs turn ≡ some found = rw other at e in
            let (apart, there) = found-IsApart turn tc found tcs rest h in
            let miss : is_attempt turn found.attempt_index tc ≡ false =
              grind (arith, apart.attempts, there) in
            let r : with_row tc (mark_attempt turn found.attempt_index tcs) ≡ ok new =
              rw miss at m in
            let (tail, p, q) = >>=-eq-ok (mark_attempt turn found.attempt_index tcs) _ r in
            let (k, n) = mark_attempt-Kept found tcs tail t rest p in
            let done : tc ∷ tail ≡ new = cc in
            subst (λ z. Kept from_turn (tc ∷ tcs) z × NoneAt turn z) done (same tc k, (other, n))
      ]
