-- ===== src/Agent/Decisions/Shape.antt =====
-- What a decision that is read from a model's answer comes from.
use civ_sim_taskify.Prelude.{
  String, ◌≡◌, refl, ap, subst, ◌⊎◌, inl, inr, Bool, false, Option, none, some, Bool-cases, arith,
}
use civ_sim_taskify.Errors.{ok, ok-path}
use civ_sim_taskify.Models.Value.{Value, null, bool, num, text, arr, obj, nil, cons, Fields}
use civ_sim_taskify.Predicate.Values.{get_field}
use civ_sim_taskify.Provider.Port.{RawDecision}
use civ_sim_taskify.Agent.Decisions.{
  Json, some_text, with_parts, as_decision, from_parsed, parse_decision,
}

module _ (json : Json) where
  -- The field is a text that is not blank.
  abbrev pub HasText : Fields → String → String → Type 0
  HasText fs k t = (get_field fs k ≡ some (text t)) × (json.is_blank t ≡ false)

  -- The answer is one object, or a list of just one, that names an action and gives its reasons.
  abbrev pub IsReadFrom : RawDecision → Value → Type 0
  IsReadFrom raw v =
      (fs : Fields) × ((v ≡ obj fs) ⊎ (v ≡ arr (cons (obj fs) nil)))
      × HasText fs "action_declaration_id" raw.action_declaration_id
      × HasText fs "reasoning" raw.reasoning

  some_text-HasText :
      (v : Option Value) (t : String)
      → some_text json v ≡ some t
      → (v ≡ some (text t)) × (json.is_blank t ≡ false)
  some_text-HasText none t h = absurd (cc)
  some_text-HasText (some null) t h = absurd (cc)
  some_text-HasText (some (bool b)) t h = absurd (cc)
  some_text-HasText (some (num n)) t h = absurd (cc)
  some_text-HasText (some (obj fs)) t h = absurd (cc)
  some_text-HasText (some (arr xs)) t h = absurd (cc)
  some_text-HasText (some (text s)) t h = elim (Bool-cases (json.is_blank s)) [
    | inl e ↦ absurd (ground arith)
    | inr e ↦
        let same : s ≡ t = ground arith in
        (ap (λ z. some (text z)) same, subst (λ z. json.is_blank z ≡ false) same e)
  ]

  with_parts-texts :
      (a b : Option String) (c : Option Fields) (d : Option Bool) (p : Option (Option String))
      (raw : RawDecision)
      → with_parts a b c d p ≡ some raw
      → (a ≡ some raw.action_declaration_id) × (b ≡ some raw.reasoning)
  with_parts-texts none b c d p raw h = absurd (cc)
  with_parts-texts (some a) none c d p raw h = absurd (cc)
  with_parts-texts (some a) (some b) none d p raw h = absurd (cc)
  with_parts-texts (some a) (some b) (some c) none p raw h = absurd (cc)
  with_parts-texts (some a) (some b) (some c) (some d) none raw h = absurd (cc)
  with_parts-texts (some a) (some b) (some c) (some d) (some p) raw h = (cc, cc)

  as_decision-texts :
      (v : Value) (raw : RawDecision)
      → as_decision json v ≡ some raw
      → (fs : Fields) × (v ≡ obj fs)
        × HasText fs "action_declaration_id" raw.action_declaration_id
        × HasText fs "reasoning" raw.reasoning
  unfolding as_decision
  as_decision-texts null raw h = absurd (cc)
  as_decision-texts (bool b) raw h = absurd (cc)
  as_decision-texts (num n) raw h = absurd (cc)
  as_decision-texts (text s) raw h = absurd (cc)
  as_decision-texts (arr xs) raw h = absurd (cc)
  as_decision-texts (obj fs) raw h =
      let (a, b) = with_parts-texts _ _ _ _ _ raw h in
      (
        fs,
        refl,
        some_text-HasText (get_field fs "action_declaration_id") raw.action_declaration_id a,
        some_text-HasText (get_field fs "reasoning") raw.reasoning b,
      )

  object-IsReadFrom :
      (v : Value) (raw : RawDecision)
      → as_decision json v ≡ some raw
      → (w : Value) × (some v ≡ some w) × IsReadFrom raw w
  object-IsReadFrom v raw h =
      let (fs, e, a, b) = as_decision-texts v raw h in (v, refl, (fs, inl e, a, b))

  from_parsed-IsReadFrom :
      (v : Option Value) (raw : RawDecision)
      → from_parsed json v ≡ ok (some raw)
      → (w : Value) × (v ≡ some w) × IsReadFrom raw w
  from_parsed-IsReadFrom none raw h = absurd (cc)
  from_parsed-IsReadFrom (some null) raw h = absurd (cc)
  from_parsed-IsReadFrom (some (bool b)) raw h = object-IsReadFrom (bool b) raw (ok-path h)
  from_parsed-IsReadFrom (some (num n)) raw h = object-IsReadFrom (num n) raw (ok-path h)
  from_parsed-IsReadFrom (some (text s)) raw h = object-IsReadFrom (text s) raw (ok-path h)
  from_parsed-IsReadFrom (some (obj fs)) raw h = object-IsReadFrom (obj fs) raw (ok-path h)
  from_parsed-IsReadFrom (some (arr nil)) raw h = absurd (cc)
  from_parsed-IsReadFrom (some (arr (cons v nil))) raw h =
      let (fs, e, a, b) = as_decision-texts v raw (ok-path h) in
      (arr (cons v nil), refl, (fs, inr (ap (λ z. arr (cons z nil)) e), a, b))
  from_parsed-IsReadFrom (some (arr (cons v (cons w ws)))) raw h = absurd (cc)

  -- A decision is only read from a text that is not blank and that is the JSON of one object, or of
  -- a list of just one object, whose action and reasoning are texts that are not blank and those of
  -- the decision.
  pub parse_decision-IsReadFrom :
      (s : String) (raw : RawDecision)
      → parse_decision json (some s) ≡ ok (some raw)
      → (json.is_blank s ≡ false) × ((v : Value) × (json.loads s ≡ some v) × IsReadFrom raw v)
  unfolding parse_decision
  parse_decision-IsReadFrom s raw h = elim (Bool-cases (json.is_blank s)) [
    | inl e ↦ absurd (ground arith)
    | inr e ↦ (e, from_parsed-IsReadFrom (json.loads s) raw (ground arith))
  ]
