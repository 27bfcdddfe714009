-- ===== src/Predicate/Values.antt =====
-- Python's operations on the values of a predicate: truth, equality, order and membership.
use Prim.Native.Nat.{compare, Ordering}
use Prim.Native.Char.{code}
use civ_sim_taskify.Prelude.{
  ℕ, zero, suc, String, Bool, true, false, not, ◌&&◌, ◌||◌, Option, none, some, List, [], ◌∷◌, ◌==◌,
  str_eq, if◌then◌else◌,
}
use civ_sim_taskify.Prelude.Int.{ℤ, pos, negsuc, ltb_ℤ}
use civ_sim_taskify.Models.Value.{
  Value, null, bool, num, text, arr, obj, Items, nil, cons, Fields, end, field,
}

-- The code points of a text.
abbrev pub codes : String → List ℕ
codes String.[] = []
codes (String.◌∷◌ c s) = code c ∷ codes s

-- `dict.get`
unfoldable pub get_field : Fields → String → Option Value
get_field end k = none
get_field (field j v fs) k = if str_eq j k then some v else get_field fs k

-- `d[k] = v`: an old key keeps its place.
unfoldable pub set_field : Fields → String → Value → Fields
set_field end k v = field k v end
set_field (field j w fs) k v =
    let rest = set_field fs k v in if str_eq j k then field j v fs else field j w rest

abbrev pub count_fields : Fields → ℕ
count_fields end = 0
count_fields (field k v fs) = suc (count_fields fs)

-- `bool(v)`
unfoldable pub truthy : Value → Bool
truthy null = false
truthy (bool b) = b
truthy (num (pos zero)) = false
truthy (num (pos (suc n))) = true
truthy (num (negsuc n)) = true
truthy (text s) = not (str_eq s "")
truthy (arr nil) = false
truthy (arr (cons v vs)) = true
truthy (obj end) = false
truthy (obj (field k v fs)) = true

-- A boolean is the number 0 or 1.
abbrev pub as_number : Value → Option ℤ
as_number (num z) = some z
as_number (bool true) = some (pos 1)
as_number (bool false) = some (pos 0)
as_number v = none

abbrev pub eq_ℤ : ℤ → ℤ → Bool
eq_ℤ a b = not (ltb_ℤ a b) && not (ltb_ℤ b a)

abbrev same_number : Option ℤ → Option ℤ → Bool
same_number (some a) (some b) = eq_ℤ a b
same_number a b = false

abbrev found : Bool → Option Value → (Value → Bool) → Bool
found again none test = false
found again (some w) test = test w && again

-- `a == b`: dictionaries are equal whatever the order of their keys.
unfoldable mutual
  pub value_eq : Value → Value → Bool
  value_eq null null = true
  value_eq null w = false
  value_eq (bool b) w = same_number (as_number (bool b)) (as_number w)
  value_eq (num z) w = same_number (some z) (as_number w)
  value_eq (text s) (text t) = str_eq s t
  value_eq (text s) w = false
  value_eq (arr vs) (arr ws) = items_eq vs ws
  value_eq (arr vs) w = false
  value_eq (obj fs) (obj gs) = (count_fields fs == count_fields gs) && fields_in fs gs
  value_eq (obj fs) w = false

  pub items_eq : Items → Items → Bool
  items_eq nil nil = true
  items_eq nil (cons w ws) = false
  items_eq (cons v vs) nil = false
  items_eq (cons v vs) (cons w ws) = value_eq v w && items_eq vs ws

  pub fields_in : Fields → Fields → Bool
  fields_in end gs = true
  fields_in (field k v fs) gs = found (fields_in fs gs) (get_field gs k) (value_eq v)

abbrev order_ℤ : ℤ → ℤ → Ordering
order_ℤ a b = if ltb_ℤ a b then Ordering.lt else if ltb_ℤ b a then Ordering.gt else Ordering.eq

abbrev then_order : Ordering → Ordering → Ordering
then_order Ordering.eq o = o
then_order Ordering.lt o = Ordering.lt
then_order Ordering.gt o = Ordering.gt

-- Texts are ordered by code points.
order_codes : List ℕ → List ℕ → Ordering
order_codes [] [] = Ordering.eq
order_codes [] (d ∷ ds) = Ordering.lt
order_codes (c ∷ cs) [] = Ordering.gt
order_codes (c ∷ cs) (d ∷ ds) = then_order (compare c d) (order_codes cs ds)

abbrev order_numbers : Option ℤ → Option ℤ → Option Ordering
order_numbers (some a) (some b) = some (order_ℤ a b)
order_numbers a b = none

-- `a < b` and its relatives: `none` is the TypeError of values that have no order.
unfoldable mutual
  unfolding order_codes

  pub order : Value → Value → Option Ordering
  order null w = none
  order (bool b) w = order_numbers (as_number (bool b)) (as_number w)
  order (num z) w = order_numbers (some z) (as_number w)
  order (text s) (text t) = some (order_codes (codes s) (codes t))
  order (text s) w = none
  order (arr vs) (arr ws) = order_items vs ws
  order (arr vs) w = none
  order (obj fs) w = none

  pub order_items : Items → Items → Option Ordering
  order_items nil nil = some Ordering.eq
  order_items nil (cons w ws) = some Ordering.lt
  order_items (cons v vs) nil = some Ordering.gt
  order_items (cons v vs) (cons w ws) =
      let first = order v w in let rest = order_items vs ws in if value_eq v w then rest else first

is_front : List ℕ → List ℕ → Bool
is_front [] ds = true
is_front (c ∷ cs) [] = false
is_front (c ∷ cs) (d ∷ ds) = (c == d) && is_front cs ds

is_infix : List ℕ → List ℕ → Bool
unfolding is_front
is_infix cs [] = is_front cs []
is_infix cs (d ∷ ds) = is_front cs (d ∷ ds) || is_infix cs ds

any_item : Value → Items → Bool
any_item v nil = false
any_item v (cons w ws) = value_eq v w || any_item v ws

has_key : Value → Fields → Option Bool
has_key (text s) fs = some (elim (get_field fs s) [ none ↦ false | some v ↦ true ])
has_key (arr vs) fs = none
has_key (obj gs) fs = none
has_key v fs = some false

-- `a in b` for a `b` that is not None: `none` is the TypeError.
unfoldable pub member_of : Value → Value → Option Bool
unfolding is_infix any_item has_key
member_of v (arr ws) = some (any_item v ws)
member_of v (obj fs) = has_key v fs
member_of (text s) (text t) = some (is_infix (codes s) (codes t))
member_of v w = none
