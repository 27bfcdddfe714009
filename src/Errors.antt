-- ===== src/Errors.antt =====
-- civsim_harness/errors.py: the exception classes of the harness as values, and the sequencing of
-- functions that may raise. Messages and the `detail` mappings of exceptions are left out.
use civ_sim_taskify.Prelude.{◌≡◌, refl, Bool, true, false}

-- The classes of errors.py, the subclasses that the components below declare, and Python's own
-- exceptions that those components raise or catch.
pub data Error : Type 0 where
  harness_error preflight_error catalog_error nexus_error store_write_error : Error
  parity_violation provider_chain_exhausted recovery_limit_reached : Error
  observation_assembly_error build_mismatch_error disk_headroom_error : Error
  wrong_context_error predicate_evaluation_error save_addressing_error : Error
  save_verification_error run_identity_lock_error image_count_mismatch : Error
  image_count_accounting_mismatch multiple_decisions_error : Error
  mid_turn_observation_failure unknown_screen_encountered client_fault_detected : Error
  backstop_end_turn_not_confirmed validation_error value_error file_not_found : Error
  struct_error unicode_error timeout_error assertion_error : Error

pub data Result {ℓ} (A : Type ℓ) : Type ℓ where
  err : Error → Result A
  ok : A → Result A

-- What follows an operation runs on its value, and not at all after an exception.
abbrev pub ◌>>=◌ {ℓ κ} : {X : Type ℓ} {Y : Type κ} → Result X → (X → Result Y) → Result Y
err e >>= next = err e
ok x >>= next = next x

abbrev pub ◌>>◌ {ℓ} : {Y : Type ℓ} → Result (Unit {0}) → Result Y → Result Y
err e >> r = err e
ok _ >> r = r

infixl 5 ◌>>=◌ ◌>>◌
-- `if b: raise e`
abbrev pub raise_if : Bool → Error → Result (Unit {0})
raise_if true e = err e
raise_if false e = ok tt

-- Inversion of a successful step.
pub >>=-eq-ok {ℓ κ} :
    {X : Type ℓ} {Y : Type κ} {y : Y} (r : Result X) (next : X → Result Y)
    → (r >>= next) ≡ ok y
    → (x : X) × (r ≡ ok x) × (next x ≡ ok y)
>>=-eq-ok (err e) next h = cc
>>=-eq-ok (ok x) next h = (x, refl, h)

pub >>-eq-ok {ℓ} :
    {Y : Type ℓ} {y : Y} (r : Result (Unit {0})) (next : Result Y)
    → (r >> next) ≡ ok y
    → (r ≡ ok tt) × (next ≡ ok y)
>>-eq-ok (err e) next h = cc
>>-eq-ok (ok _) next h = (refl, h)

pub ok-path {ℓ} : {X : Type ℓ} {x y : X} → ok x ≡ ok y → x ≡ y
ok-path h = cc
