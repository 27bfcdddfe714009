-- ===== src/Run/Actions.antt =====
-- Coroutines that change a state and may raise: state passing where the state comes back after a
-- raise too, since what was written or done stays so. A loop is a sequence of its awaits.
use civ_sim_taskify.Prelude.{Bool, true, false}

pub data Outcome (E A : Type 0) : Type 0 where
  failed : E → Outcome E A
  returned : A → Outcome E A

abbrev pub Action : Type 0 → Type 0 → Type 0 → Type 0
Action S E A = S → Outcome E A × S

module _ {S E A : Type 0} where
  abbrev pub pure : A → Action S E A
  pure a s = (returned a, s)

  abbrev pub fail : E → Action S E A
  fail e s = (failed e, s)

  abbrev pub gets : (S → A) → Action S E A
  gets f s = (returned (f s), s)

infixl 5 ◌>>=◌ ◌>>◌
abbrev pub and_then : {S E A B : Type 0} → Outcome E A × S → (A → Action S E B) → Outcome E B × S
and_then (failed e, s) f = (failed e, s)
and_then (returned a, s) f = f a s

abbrev pub ◌>>=◌ : {S E A B : Type 0} → Action S E A → (A → Action S E B) → Action S E B
(m >>= f) s = and_then (m s) f

abbrev pub ◌>>◌ : {S E B : Type 0} → Action S E (Unit {0}) → Action S E B → Action S E B
m >> k = m >>= λ _. k

abbrev pub modify : {S E : Type 0} → (S → S) → Action S E (Unit {0})
modify f s = (returned tt, f s)

abbrev pub only_if : {S E : Type 0} → Bool → Action S E (Unit {0}) → Action S E (Unit {0})
only_if true m = m
only_if false m = pure tt

-- How an action ends: a result with its state, or an exception with its state.
module _ {S E : Type 0} (X : E → S → Type 0) where
  abbrev pub Ends : {A : Type 0} → (A → S → Type 0) → Outcome E A × S → Type 0
  Ends Q (failed e, s) = X e s
  Ends Q (returned a, s) = Q a s

  -- What follows an action starts in a state that the action may leave.
  pub Ends-bind :
      {A B : Type 0} (Q : A → S → Type 0) (R : B → S → Type 0) (r : Outcome E A × S)
      (f : A → Action S E B)
      → Ends Q r
      → ((a : A) (s : S) → Q a s → Ends R (f a s))
      → Ends R (and_then r f)
  Ends-bind Q R (failed e, s) f h k = h
  Ends-bind Q R (returned a, s) f h k = k a s h

  pub Ends-weaken :
      {A : Type 0} (Q R : A → S → Type 0) (r : Outcome E A × S)
      → Ends Q r
      → ((a : A) (s : S) → Q a s → R a s)
      → Ends R r
  Ends-weaken Q R (failed e, s) h k = h
  Ends-weaken Q R (returned a, s) h k = k a s h
