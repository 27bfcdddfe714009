-- ===== src/Parity/Forbidden/Names.antt =====
-- Which contexts pass: a description by all the names that an observation carries.
use civ_sim_taskify.Prelude.{
  ℕ, String, ◌≡◌, refl, ◌↔◌, Bool, true, false, not, ◌&&◌, List, [], ◌∷◌, ◌++◌, All, length, ◌==◌,
  if◌then◌else◌,
}
use civ_sim_taskify.Errors.{ok}
use civ_sim_taskify.Models.Value.{
  Value, null, bool, num, text, arr, obj, Items, nil, cons, Fields, end, field,
}
use civ_sim_taskify.Models.Turn.{Observation, ObservationEntry}
use civ_sim_taskify.Provider.Port.{DecisionRequest}
use civ_sim_taskify.Predicate.Values.{codes}
use civ_sim_taskify.Parity.Forbidden.{
  Violation, ForbiddenPhrase, tokenize, all_phrases, contained, matches, key_violations,
  scan_nested, scan_fields, scan_items, scan_entries, scan_observation_entries, occurs_in,
  find_literal_leaks, combined_text, enforce_parity_boundary, refuse_any, then_literals,
}

-- No phrase has all its words among those of the name.
unfoldable pub IsPermitted : String → Type 0
IsPermitted k = All (λ p. contained p.tokens (tokenize (codes k)) ≡ false) all_phrases

-- Every name at any depth of a value.
unfoldable mutual
  pub AllNames : Value → Type 0
  AllNames (arr xs) = AllItems xs
  AllNames (obj fs) = AllFields fs
  AllNames null = Unit
  AllNames (bool b) = Unit
  AllNames (num n) = Unit
  AllNames (text s) = Unit

  pub AllFields : Fields → Type 0
  AllFields end = Unit
  AllFields (field k v fs) = IsPermitted k × (AllNames v × AllFields fs)

  pub AllItems : Items → Type 0
  AllItems nil = Unit
  AllItems (cons v vs) = AllNames v × AllItems vs

abbrev pub HasPermittedNames : Observation → Type 0
HasPermittedNames o = All (λ e. IsPermitted e.key × AllNames e.value) o.entries

-- A text that is blank, or does not occur in the request.
abbrev pub IsAbsent : (String → String) → DecisionRequest → String → Type 0
IsAbsent strip request v =
    (not (length (codes (strip v)) == 0) && occurs_in (codes v) (combined_text request)) ≡ false

append-nil {ℓ} : {A : Type ℓ} (xs ys : List A) → (xs ++ ys ≡ []) ↔ ((xs ≡ []) × (ys ≡ []))
append-nil [] ys = ((λ h. (refl, h)), λ h. h.1)
append-nil (x ∷ xs) ys = ((λ h. absurd (cc)), λ h. absurd (let p = h.0 in cc))

both_empty {ℓ κ ι} :
    {A : Type ℓ} {P : Type κ} {Q : Type ι} (xs ys : List A)
    → (xs ≡ []) ↔ P
    → (ys ≡ []) ↔ Q
    → (xs ++ ys ≡ []) ↔ (P × Q)
both_empty xs ys p q = (
  (λ h. let (a, b) = (append-nil xs ys).0 h in (p.0 a, q.0 b)),
  λ (a, b). (append-nil xs ys).1 (p.1 a, q.1 b),
)

guarded_empty {ℓ κ} :
    {A : Type ℓ} {P : Type κ} (b : Bool) (x : A) (rest : List A)
    → (rest ≡ []) ↔ P
    → ((if b then x ∷ rest else rest) ≡ []) ↔ ((b ≡ false) × P)
guarded_empty true x rest p = ((λ h. absurd (cc)), λ h. absurd (let q = h.0 in cc))
guarded_empty false x rest p = ((λ h. (refl, p.0 h)), λ h. p.1 h.1)

matches-empty :
    (ps : List ForbiddenPhrase) (id : String) (words : List (List ℕ))
    → (matches ps id words ≡ []) ↔ All (λ p. contained p.tokens words ≡ false) ps
unfolding matches
matches-empty [] id words = ((λ h. tt), λ h. refl)
matches-empty (p ∷ ps) id words =
    guarded_empty (contained p.tokens words) _ (matches ps id words) (matches-empty ps id words)

key_violations-empty : (id k : String) → (key_violations id k ≡ []) ↔ IsPermitted k
unfolding key_violations IsPermitted
key_violations-empty id k = matches-empty all_phrases id (tokenize (codes k))

mutual
  unfolding scan_nested AllNames

  nested-empty : (id : String) (v : Value) → (scan_nested id v ≡ []) ↔ AllNames v
  nested-empty id null = ((λ h. tt), λ h. refl)
  nested-empty id (bool b) = ((λ h. tt), λ h. refl)
  nested-empty id (num n) = ((λ h. tt), λ h. refl)
  nested-empty id (text s) = ((λ h. tt), λ h. refl)
  nested-empty id (arr xs) = items-empty id xs
  nested-empty id (obj fs) = fields-empty id fs

  fields-empty : (id : String) (fs : Fields) → (scan_fields id fs ≡ []) ↔ AllFields fs
  fields-empty id end = ((λ h. tt), λ h. refl)
  fields-empty id (field k v fs) =
      both_empty (key_violations id k) _ (key_violations-empty id k)
        (both_empty (scan_nested id v) (scan_fields id fs) (nested-empty id v) (fields-empty id fs))

  items-empty : (id : String) (vs : Items) → (scan_items id vs ≡ []) ↔ AllItems vs
  items-empty id nil = ((λ h. tt), λ h. refl)
  items-empty id (cons v vs) =
      both_empty (scan_nested id v) (scan_items id vs) (nested-empty id v) (items-empty id vs)

entries-empty :
    (es : List ObservationEntry)
    → (scan_entries es ≡ []) ↔ All (λ e. IsPermitted e.key × AllNames e.value) es
unfolding scan_entries
entries-empty [] = ((λ h. tt), λ h. refl)
entries-empty (e ∷ es) =
    let (f, g) =
      both_empty (key_violations e.declaration_id e.key) _
        (key_violations-empty e.declaration_id e.key)
        (both_empty (scan_nested e.declaration_id e.value) (scan_entries es)
          (nested-empty e.declaration_id e.value) (entries-empty es)) in
    ((λ h. let (a, (b, c)) = f h in ((a, b), c)), λ ((a, b), c). g (a, (b, c)))

leaks-empty :
    (strip : String → String) (request : DecisionRequest) (vs : List String)
    → (find_literal_leaks strip (combined_text request) vs ≡ []) ↔ All (IsAbsent strip request) vs
unfolding find_literal_leaks
leaks-empty strip request [] = ((λ h. tt), λ h. refl)
leaks-empty strip request (v ∷ vs) =
    guarded_empty
      (not (length (codes (strip v)) == 0) && occurs_in (codes v) (combined_text request)) v
      (find_literal_leaks strip (combined_text request) vs) (leaks-empty strip request vs)

refuse_any-ok {ℓ} : {A : Type ℓ} (xs : List A) → (refuse_any xs ≡ ok tt) ↔ (xs ≡ [])
refuse_any-ok [] = ((λ h. refl), λ h. refl)
refuse_any-ok (x ∷ xs) = ((λ h. absurd (cc)), λ h. absurd (cc))

then_literals-ok :
    (xs : List Violation) (ys : List String)
    → (then_literals xs ys ≡ ok tt) ↔ ((xs ≡ []) × (ys ≡ []))
then_literals-ok [] ys = let (f, g) = refuse_any-ok ys in ((λ h. (refl, f h)), λ h. g h.1)
then_literals-ok (x ∷ xs) ys = ((λ h. absurd (cc)), λ h. absurd (let q = h.0 in cc))

-- A context passes the parity boundary exactly if no name in its observation, be it the key of an
-- entry or of a mapping at any depth of a value, has all the words of a forbidden phrase, and no
-- forbidden literal that is not blank occurs in the text of the request.
pub enforce_parity_boundary-ok_iff :
    (strip : String → String) (o : Observation) (request : DecisionRequest) (vs : List String)
    → (enforce_parity_boundary strip o request vs ≡ ok tt)
      ↔ (HasPermittedNames o × All (IsAbsent strip request) vs)
unfolding enforce_parity_boundary scan_observation_entries
enforce_parity_boundary-ok_iff strip o request vs =
    let (f, g) =
      then_literals-ok (scan_entries o.entries)
        (find_literal_leaks strip (combined_text request) vs) in
    let (a, b) = entries-empty o.entries in
    let (c, d) = leaks-empty strip request vs in
    ((λ h. let (p, q) = f h in (a p, c q)), λ (p, q). g (b p, d q))
