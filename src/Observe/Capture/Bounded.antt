-- ===== src/Observe/Capture/Bounded.antt =====
-- observe/capture.py: the bounded retry, and when the image of a step is clean.
use civ_sim_taskify.Prelude.{
  ℕ, zero, suc, ◌+◌, ◌≤◌, ◌<◌, ◌≡◌, ◌↔◌, refl, sym, ap, subst, String, Bool, true, false, Option,
  none, some, Bool-cases, ◌⊎◌, inl, inr, if◌then◌else◌, ◌==◌, ==_iff, arith,
}
use civ_sim_taskify.Errors.{ok, ok-path}
use civ_sim_taskify.Models.Turn.{screened_clean, validate_capture}
use civ_sim_taskify.Observe.Capture.{
  CaptureInputs, Attempted, StepCapture, Frame, ScreeningOutcome, clean, withheld_for,
  outcome_is_clean, attempts, rounds_after_first, last_attempt, of_attempt, none_taken,
  capture_for_step,
}
use civ_sim_taskify.Observe.Capture.Withheld.{
  IsCleanCapture, IsWithheldCapture, Says, capture_for_step-Says,
}

-- The attempt is the first one that is clean.
pub record IsFirstClean (i : CaptureInputs) (j : ℕ) : Type 0 where
  pub bounded : j ≤ rounds_after_first i.max_attempts
  pub clean_one : outcome_is_clean (i.attempt_once j).outcome ≡ true
  pub none_before : (k : ℕ) → k < j → outcome_is_clean (i.attempt_once k).outcome ≡ false

-- What the record of a step's image says: it is bound to the step, kept as evidence and not yet
-- shown, and has the frame of the first clean attempt, or is withheld.
abbrev pub Shows : CaptureInputs → StepCapture → Type 0
Shows i c =
    (c.capture.shown_to_agent ≡ false)
    × (c.capture.retained_as_evidence ≡ true)
    × (c.capture.decision_step_id ≡ i.decision_step_id)
    × (((j : ℕ) × IsFirstClean i j × IsCleanCapture i (i.attempt_once j) c) ⊎ IsWithheldCapture i c)

-- The window is known and one of the attempts, of which there are as many as the bound says but one
-- at least, is clean.
abbrev pub HasClean : CaptureInputs → Type 0
HasClean i =
    (i.window_resolved ≡ true)
    × ((j : ℕ) × (j ≤ rounds_after_first i.max_attempts)
        × (outcome_is_clean (i.attempt_once j).outcome ≡ true))

abbrev CleanWithin : (ℕ → Attempted) → ℕ → ℕ → Type 0
CleanWithin f k left = (j : ℕ) × (k ≤ j) × (j ≤ k + left) × (outcome_is_clean (f j).outcome ≡ true)

else_clean :
    (b : Bool) (x y : Attempted)
    → b ≡ false
    → outcome_is_clean (if b then x else y).outcome ≡ true
    → outcome_is_clean y.outcome ≡ true
else_clean true x y e h = absurd (cc)
else_clean false x y e h = h

later_than :
    (f : ℕ → Attempted) (k j : ℕ)
    → k ≤ j
    → outcome_is_clean (f k).outcome ≡ false
    → outcome_is_clean (f j).outcome ≡ true
    → suc k ≤ j
later_than f k j a e c = elim (Bool-cases (k == j)) [
  | inl p ↦ let same = ap (λ z. outcome_is_clean (f z).outcome) ((==_iff k j).0 p) in absurd (cc)
  | inr p ↦ ground arith
]

attempts_find :
    (f : ℕ → Attempted) (k left : ℕ)
    → outcome_is_clean (attempts f k left).outcome ≡ true
    → CleanWithin f k left
unfolding attempts
attempts_find f k zero h = (k, omega arith, omega arith, h)
attempts_find f k (suc left) h = elim (Bool-cases (outcome_is_clean (f k).outcome)) [
  | inl e ↦ (k, omega arith, omega arith, e)
  | inr e ↦
      let (j, a, b, c) =
        attempts_find f (suc k) left
          (else_clean (outcome_is_clean (f k).outcome) (f k) (attempts f (suc k) left) e h) in
      (j, omega arith, omega arith, c)
]

-- The clean attempt that the loop comes to is the first.
attempts_first :
    (f : ℕ → Attempted) (k left : ℕ)
    → outcome_is_clean (attempts f k left).outcome ≡ true
    → (j : ℕ) × (k ≤ j)
      × (j ≤ k + left)
      × (attempts f k left ≡ f j)
      × (outcome_is_clean (f j).outcome ≡ true)
      × ((m : ℕ) → k ≤ m → m < j → outcome_is_clean (f m).outcome ≡ false)
unfolding attempts
attempts_first f k zero h =
    (k, omega arith, omega arith, refl, h, λ m low high. absurd (omega arith))
attempts_first f k (suc left) h = elim (Bool-cases (outcome_is_clean (f k).outcome)) [
  | inl e ↦ (k, omega arith, omega arith, rw e refl, e, λ m low high. absurd (omega arith))
  | inr e ↦
      let (j, a, b, same, c, before) =
        attempts_first f (suc k) left
          (else_clean (outcome_is_clean (f k).outcome) (f k) (attempts f (suc k) left) e h) in
      (
        j,
        omega arith,
        omega arith,
        rw e same,
        c,
        λ m low high. elim (Bool-cases (k == m)) [
          | inl p ↦ subst (λ z. outcome_is_clean (f z).outcome ≡ false) ((==_iff k m).0 p) e
          | inr p ↦ before m (ground arith) high
        ],
      )
]

attempts_reach :
    (f : ℕ → Attempted) (k left : ℕ)
    → CleanWithin f k left
    → outcome_is_clean (attempts f k left).outcome ≡ true
unfolding attempts
attempts_reach f k zero (j, a, b, c) =
    let same : j ≡ k = omega arith in subst (λ z. outcome_is_clean (f z).outcome ≡ true) same c
attempts_reach f k (suc left) (j, a, b, c) = elim (Bool-cases (outcome_is_clean (f k).outcome)) [
  | inl e ↦ rw e e
  | inr e ↦ rw e (attempts_reach f (suc k) left (j, later_than f k j a e c, omega arith, c))
]

module _ (i : CaptureInputs) where
  abbrev taken : Bool → Attempted
  taken b = if b then attempts i.attempt_once 0 (rounds_after_first i.max_attempts) else none_taken

  by_window :
      (b : Bool) → i.window_resolved ≡ b → (outcome_is_clean (taken b).outcome ≡ true) ↔ HasClean i
  by_window true e = (
    (λ h.
        let (j, a, b, c) = attempts_find i.attempt_once 0 (rounds_after_first i.max_attempts) h in
        (e, (j, omega arith, c))),
    λ (w, (j, b, c)).
        attempts_reach i.attempt_once 0 (rounds_after_first i.max_attempts)
          (j, omega arith, omega arith, c),
  )
  by_window false e = ((λ h. absurd (cc)), λ (w, rest). absurd (cc))

  last_attempt-HasClean : (outcome_is_clean (last_attempt i).outcome ≡ true) ↔ HasClean i
  unfolding last_attempt
  last_attempt-HasClean = by_window i.window_resolved refl

  first_of :
      (b : Bool) (c : StepCapture)
      → i.window_resolved ≡ b
      → outcome_is_clean (taken b).outcome ≡ true
      → IsCleanCapture i (taken b) c
      → (j : ℕ) × IsFirstClean i j × IsCleanCapture i (i.attempt_once j) c
  first_of false c e h k = absurd (cc)
  first_of true c e h k =
      let (j, a, b, same, clean_j, before) =
        attempts_first i.attempt_once 0 (rounds_after_first i.max_attempts) h in
      (
        j,
        record {
          bounded = omega arith;
          clean_one = clean_j;
          none_before = λ m high. before m (omega arith) high;
        },
        subst (λ z. IsCleanCapture i z c) same k,
      )

  Says-Shows : (c : StepCapture) → Says i (last_attempt i) c → Shows i c
  unfolding last_attempt
  Says-Shows c (u, v, w, inl k) = (u, v, w, inl (first_of i.window_resolved c refl k.2 k))
  Says-Shows c (u, v, w, inr k) = (u, v, w, inr k)

  outcome_kept :
      (path : String) (f : Option Frame) (o : ScreeningOutcome) (c : StepCapture)
      → of_attempt i path f o ≡ ok c
      → (c.capture.screening_status ≡ screened_clean) ↔ (outcome_is_clean o ≡ true)
  unfolding validate_capture
  outcome_kept path none clean c h = absurd (cc)
  outcome_kept path (some f) clean c h =
      ((λ e. refl), λ e. ap (λ z. z.capture.screening_status) (sym (ok-path h)))
  outcome_kept path none (withheld_for r) c h =
      let e = ap (λ z. z.capture.screening_status) (ok-path h) in
      ((λ q. absurd (cc)), λ q. absurd (cc))
  outcome_kept path (some f) (withheld_for r) c h =
      let e = ap (λ z. z.capture.screening_status) (ok-path h) in
      ((λ q. absurd (cc)), λ q. absurd (cc))

  -- The one record of a step's image is bound to the step, kept as evidence and not yet marked as
  -- shown. Either it is clean, with the bytes, the media type and the path of the frame that the
  -- first clean attempt took, a reference to the bytes by their digest and no event, or it is
  -- withheld, with no bytes and no reference, the two events of a degraded capture and the mark of
  -- visual degradation. It is clean exactly if the window is known and one of the attempts is clean,
  -- of which there are as many as the bound says but one at least.
  pub capture_for_step-HasClean :
      (c : StepCapture)
      → capture_for_step i ≡ ok c
      → Shows i c × ((c.capture.screening_status ≡ screened_clean) ↔ HasClean i)
  unfolding capture_for_step
  capture_for_step-HasClean c h =
      let a = last_attempt i in
      let (f, g) = outcome_kept a.capture_path a.frame a.outcome c h in
      let (p, q) = last_attempt-HasClean in
      (Says-Shows c (capture_for_step-Says i c h), ((λ e. p (f e)), λ k. g (q k)))
