-- ===== src/Saves/Addressing/Available.antt =====
-- Which save point is handed out, and that none is once it is recorded as missing.
use civ_sim_taskify.Prelude.{
  ℕ, ◌≡◌, ◌≢◌, sym, ap, ◌∙◌, subst, inl, inr, false, some, List, [], ◌∷◌, ◌++◌, All, Bool-cases,
  Option-cases, ==_iff, ◌==◌, arith,
}
use civ_sim_taskify.Errors.{ok, save_addressing_error, raise_if, >>=-eq-ok, >>-eq-ok, ok-path}
use civ_sim_taskify.Resilience.Recovery.{SavePoint, is_absent}
use civ_sim_taskify.Saves.Addressing.{
  find_save_point, resolve_save_point, require_available_save_point,
}

-- The first save point of the turn among those of the run.
abbrev pub IsFirst : List SavePoint → ℕ → SavePoint → Type 0
IsFirst saves turn save =
    (before after : List SavePoint) × (saves ≡ before ++ (save ∷ after))
    × All (λ s. s.turn_number ≢ turn) before
    × (save.turn_number ≡ turn)

find_save_point-IsFirst :
    (saves : List SavePoint) (turn : ℕ) (save : SavePoint)
    → find_save_point saves turn ≡ some save
    → IsFirst saves turn save
unfolding find_save_point
find_save_point-IsFirst [] turn save h = absurd (cc)
find_save_point-IsFirst (s ∷ saves) turn save h = elim (Bool-cases (s.turn_number == turn)) [
  | inl e ↦
      let same : s ≡ save = ground arith in
      (
        [],
        saves,
        ap (λ z. z ∷ saves) same,
        tt,
        ap (λ z. z.turn_number) (sym same) ∙ (==_iff s.turn_number turn).0 e,
      )
  | inr e ↦
      let (before, after, p, others, own) =
        find_save_point-IsFirst saves turn save (ground arith) in
      (s ∷ before, after, ap (λ z. s ∷ z) p, ((λ q. ground (arith, q)), others), own)
]

-- A save point that is handed out is the first of its turn among those of the run, and is recorded
-- neither as missing nor as removed: no save of another turn ever takes its place.
pub require_available_save_point-IsFirst :
    (saves : List SavePoint) (turn : ℕ) (save : SavePoint)
    → require_available_save_point saves turn ≡ ok save
    → IsFirst saves turn save × (is_absent save ≡ false)
unfolding require_available_save_point resolve_save_point
require_available_save_point-IsFirst saves turn save h =
    let (found, p, q) = >>=-eq-ok (resolve_save_point saves turn) _ h in
    let (present, r) = >>-eq-ok (raise_if (is_absent found) save_addressing_error) _ q in
    let same : found ≡ save = ok-path r in
    elim (Option-cases (find_save_point saves turn)) [
      | inl e ↦ absurd (ground arith)
      | inr (s, e) ↦
          let eq : s ≡ save = ground (arith, same) in
          (
            subst (IsFirst saves turn) eq (find_save_point-IsFirst saves turn s e),
            subst (λ z. is_absent z ≡ false) same (ground arith),
          )
    ]
