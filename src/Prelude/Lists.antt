-- ===== src/Prelude/Lists.antt =====
-- Lists measured by native numbers, and predicates over lists, that the components share.
use Prim.Native.Nat.{ℕ, zero, suc, ◌+◌, ◌-◌, ◌≤◌}
use mathlib.Core.Path.{◌≡◌, refl, ap}
use mathlib.Core.List.{List, [], ◌∷◌, ◌++◌}
use native.Mathlib.Omega.{arith}

module _ {ℓ} {A : Type ℓ} where
  abbrev pub length : List A → ℕ
  length [] = 0
  length (x ∷ xs) = suc (length xs)

  pub length-append : (xs ys : List A) → length (xs ++ ys) ≡ length xs + length ys
  length-append [] ys = omega arith
  length-append (x ∷ xs) ys = omega (arith, length-append xs ys)

module _ {ℓ κ} {X : Type ℓ} (P : X → Type κ) where
  abbrev pub All : List X → Type κ
  All (x ∷ xs) = P x × All xs
  All [] = Unit

  pub All-append : (front back : List X) → All front → All back → All (front ++ back)
  All-append (x ∷ front) back (h, hs) k = (h, All-append front back hs k)
  All-append [] back h k = k

module _ {ℓ} {A : Type ℓ} where
  abbrev pub get_or : List A → ℕ → A → A
  get_or [] i d = d
  get_or (x ∷ xs) zero d = x
  get_or (x ∷ xs) (suc i) d = get_or xs i d

  abbrev pub take : ℕ → List A → List A
  take zero xs = []
  take (suc n) [] = []
  take (suc n) (x ∷ xs) = x ∷ take n xs

  abbrev pub drop : ℕ → List A → List A
  drop zero xs = xs
  drop (suc n) [] = []
  drop (suc n) (x ∷ xs) = drop n xs

  pub take-append : (xs ys : List A) → take (length xs) (xs ++ ys) ≡ xs
  take-append [] ys = refl
  take-append (x ∷ xs) ys = ap (λ l. x ∷ l) (take-append xs ys)

  pub drop-append : (xs ys : List A) → drop (length xs) (xs ++ ys) ≡ ys
  drop-append [] ys = refl
  drop-append (x ∷ xs) ys = drop-append xs ys

  -- Two ways to cut a list: the longer front holds the shorter one.
  pub cut_front :
      (xs ys bs cs : List A)
      → xs ++ ys ≡ bs ++ cs
      → length xs ≤ length bs
      → (ds : List A) × (bs ≡ xs ++ ds) × (ys ≡ ds ++ cs)
  cut_front [] ys bs cs e h = (bs, refl, e)
  cut_front (x ∷ xs) ys [] cs e h = elim h [ ]
  cut_front (x ∷ xs) ys (b ∷ bs) cs e h =
      let (ds, p, q) = cut_front xs ys bs cs (cc) (omega arith) in (ds, cc, q)

  pub length-drop : (n : ℕ) (xs : List A) → length (drop n xs) ≡ length xs - n
  length-drop zero xs = omega arith
  length-drop (suc n) [] = omega arith
  length-drop (suc n) (x ∷ xs) = omega (arith, length-drop n xs)
