-- ===== src/Predicate/Symbols.antt =====
-- capability/predicates.py: the root symbols of a predicate's text. The two regular expressions are
-- read off as scanners over the code points.
use civ_sim_taskify.Prelude.{
  ℕ, ◌+◌, String, Bool, true, false, ◌&&◌, ◌||◌, Option, none, some, List, [], ◌∷◌, ◌++◌, leb, ◌==◌,
  if◌then◌else◌, map,
}
use civ_sim_taskify.Predicate.Values.{codes}

abbrev pub eq_codes : List ℕ → List ℕ → Bool
eq_codes [] [] = true
eq_codes [] (d ∷ ds) = false
eq_codes (c ∷ cs) [] = false
eq_codes (c ∷ cs) (d ∷ ds) = (c == d) && eq_codes cs ds

abbrev pub one_of : List (List ℕ) → List ℕ → Bool
one_of [] s = false
one_of (t ∷ ts) s = eq_codes t s || one_of ts s

-- EXPOSED_PREDICATE_NAMESPACES
abbrev pub exposed_predicate_namespaces : List (List ℕ)
exposed_predicate_namespaces = map codes (
    "game" ∷ "player" ∷ "unit" ∷ "city" ∷ "target" ∷ "other_player" ∷ "congress" ∷ "great_person"
    ∷ "spy" ∷ "prompt" ∷ "camera" ∷ [])

abbrev pub predicate_keywords : List (List ℕ)
predicate_keywords = map codes ("and" ∷ "or" ∷ "not" ∷ "in" ∷ "true" ∷ "false" ∷ "null" ∷ [])

abbrev pub observed_prefix : List ℕ
observed_prefix = codes "observed_"

is_letter : ℕ → Bool
is_letter c = (leb 65 c && leb c 90) || (leb 97 c && leb c 122) || (c == 95)

is_name_char : ℕ → Bool
unfolding is_letter
is_name_char c = is_letter c || (leb 48 c && leb c 57)

-- What follows the closing quote, if there is one.
after_quote : ℕ → List ℕ → Option (List ℕ)
after_quote q [] = none
after_quote q (c ∷ cs) = let rest = after_quote q cs in if c == q then some cs else rest

abbrev is_quote : ℕ → Bool
is_quote c = (c == 39) || (c == 34)

-- `_STRING_LITERAL_RE.sub(" ", predicate)`; the fuel is the length of the text.
strip_literals : List ℕ → List ℕ → List ℕ
unfolding after_quote
strip_literals [] cs = cs
strip_literals (f ∷ fuel) [] = []
strip_literals (f ∷ fuel) (c ∷ cs) =
    let kept = c ∷ strip_literals fuel cs in
    let closed : List ℕ = elim (after_quote c cs) [
      | none ↦ c ∷ strip_literals fuel cs
      | some rest ↦ 32 ∷ strip_literals fuel rest
    ] in
    if is_quote c then closed else kept

-- Where the scanner of identifier chains stands: outside, inside the root that it has read, just
-- behind a dot, or inside a later segment.
pub data Mode : Type 0 where
  outside : Mode
  in_root : List ℕ → Mode
  behind_dot : Mode
  in_segment : Mode

-- The roots of `_IDENTIFIER_CHAIN_RE.finditer`, in order.
chain_roots : Mode → List ℕ → List (List ℕ)
unfolding is_name_char is_letter
chain_roots outside [] = []
chain_roots (in_root r) [] = r ∷ []
chain_roots behind_dot [] = []
chain_roots in_segment [] = []
chain_roots outside (c ∷ cs) = chain_roots (if is_letter c then in_root (c ∷ []) else outside) cs
chain_roots (in_root r) (c ∷ cs) =
    let more = chain_roots (in_root (r ++ c ∷ [])) cs in
    let done = r ∷ chain_roots (if c == 46 then behind_dot else outside) cs in
    if is_name_char c then more else done
chain_roots behind_dot (c ∷ cs) = chain_roots (if is_letter c then in_segment else outside) cs
chain_roots in_segment (c ∷ cs) =
    chain_roots (if is_name_char c then in_segment else if c == 46 then behind_dot else outside) cs

lower : ℕ → ℕ
lower c = if leb 65 c && leb c 90 then c + 32 else c

unfoldable pub starts_with : List ℕ → List ℕ → Bool
starts_with [] cs = true
starts_with (p ∷ ps) [] = false
starts_with (p ∷ ps) (c ∷ cs) = (p == c) && starts_with ps cs

-- A keyword in any case, an exposed namespace or a snapshot.
unfoldable pub is_known : List ℕ → Bool
unfolding lower starts_with
is_known root =
    one_of predicate_keywords (map lower root)
    || (one_of exposed_predicate_namespaces root || starts_with observed_prefix root)

unknown_of : List (List ℕ) → List (List ℕ)
unfolding is_known
unknown_of [] = []
unknown_of (r ∷ rs) = let rest = unknown_of rs in if is_known r then rest else r ∷ rest

-- `unknown_predicate_symbols`, with repetitions.
unfoldable pub unknown_predicate_symbols : String → List (List ℕ)
unfolding strip_literals chain_roots unknown_of
unknown_predicate_symbols predicate =
    let cs = codes predicate in unknown_of (chain_roots outside (strip_literals cs cs))
