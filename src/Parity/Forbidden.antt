-- ===== src/Parity/Forbidden.antt =====
-- parity/forbidden.py: the scan of one assembled context. Names and texts are lists of code points;
-- Python's `str.strip` is a parameter.
pub mod Names
use civ_sim_taskify.Prelude.{
  ℕ, ◌+◌, String, Bool, true, false, not, ◌&&◌, ◌||◌, List, [], ◌∷◌, ◌++◌, leb, length, ◌==◌,
  if◌then◌else◌,
}
use civ_sim_taskify.Errors.{Error, Result, ok, err, parity_violation}
use civ_sim_taskify.Models.Value.{
  Value, null, bool, num, text, arr, obj, Items, nil, cons, Fields, end, field,
}
use civ_sim_taskify.Models.Turn.{Observation, ObservationEntry}
use civ_sim_taskify.Provider.Port.{DecisionRequest}
use civ_sim_taskify.Predicate.Values.{codes}
use civ_sim_taskify.Predicate.Symbols.{eq_codes, one_of, starts_with}

pub data ForbiddenCategory : Type 0 where
  game_state_leakage harness_telemetry : ForbiddenCategory

-- The location and the description of a finding are left out.
pub record Violation : Type 0 where
  pub category : ForbiddenCategory
  pub declaration_id : String

abbrev pub upper : ℕ → Bool
upper c = leb 65 c && leb c 90

abbrev pub lower_or_digit : ℕ → Bool
lower_or_digit c = (leb 97 c && leb c 122) || (leb 48 c && leb c 57)

abbrev pub lower : ℕ → ℕ
lower c = if upper c then c + 32 else c

-- A word that is read so far, kept when it is not empty.
abbrev pub with_word : List ℕ → List (List ℕ) → List (List ℕ)
with_word [] words = words
with_word (c ∷ cs) words = (c ∷ cs) ∷ words

-- The words that a character ends: one that is no letter or digit ends a word, and so does a
-- capital one behind a small letter or a digit (`small`).
abbrev pub ended : List ℕ → Bool → ℕ → List (List ℕ)
ended word small c = if lower_or_digit c || (upper c && not small) then [] else with_word word []

-- The word that is read after a character.
abbrev pub word_after : List ℕ → Bool → ℕ → List ℕ
word_after word small c =
    if lower_or_digit c || (upper c && not small)
    then word ++ (lower c ∷ [])
    else if upper c
    then lower c ∷ []
    else []

-- The first argument is the word that is read, the second says whether its last character was a
-- small letter or a digit.
unfoldable pub tokens_from : List ℕ → Bool → List ℕ → List (List ℕ)
tokens_from word small [] = with_word word []
tokens_from word small (c ∷ cs) =
    ended word small c ++ tokens_from (word_after word small c) (lower_or_digit c) cs

-- `_tokenize`
unfoldable pub tokenize : List ℕ → List (List ℕ)
unfolding tokens_from
tokenize key = tokens_from [] false key

pub record ForbiddenPhrase : Type 0 where
  pub category : ForbiddenCategory
  pub tokens : List (List ℕ)

abbrev leaks : List (List ℕ) → ForbiddenPhrase
leaks ts = record { category = game_state_leakage; tokens = ts }

abbrev telemetry : List (List ℕ) → ForbiddenPhrase
telemetry ts = record { category = harness_telemetry; tokens = ts }

abbrev one_word : String → List (List ℕ)
one_word a = codes a ∷ []

abbrev two_words : String → String → List (List ℕ)
two_words a b = codes a ∷ codes b ∷ []

-- _GAME_STATE_PHRASES
abbrev pub game_state_phrases : List ForbiddenPhrase
game_state_phrases =
    leaks (one_word "rng")
    ∷ leaks (one_word "seed")
    ∷ leaks (one_word "debug")
    ∷ leaks (one_word "provenance")
    ∷ leaks (one_word "unrevealed")
    ∷ leaks (one_word "undisclosed")
    ∷ leaks (one_word "hidden")
    ∷ leaks (one_word "internal")
    ∷ leaks (two_words "opponent" "research")
    ∷ leaks (two_words "opponent" "civic")
    ∷ leaks (two_words "ai" "intent")
    ∷ leaks (two_words "ai" "strategy")
    ∷ leaks (one_word "cheat")
    ∷ leaks (one_word "godmode")
    ∷ leaks (one_word "omniscient")
    ∷ leaks (two_words "fog" "bypass")
    ∷ leaks (two_words "raw" "lua")
    ∷ []

-- _HARNESS_TELEMETRY_PHRASES
abbrev pub harness_telemetry_phrases : List ForbiddenPhrase
harness_telemetry_phrases =
    telemetry (one_word "model")
    ∷ telemetry (one_word "cost")
    ∷ telemetry (one_word "tokens")
    ∷ telemetry (one_word "latency")
    ∷ telemetry (one_word "retry")
    ∷ telemetry (one_word "retries")
    ∷ telemetry (one_word "fallback")
    ∷ telemetry (one_word "lineage")
    ∷ telemetry (two_words "run" "config")
    ∷ telemetry (two_words "run" "configuration")
    ∷ telemetry (two_words "config" "id")
    ∷ telemetry (two_words "wall" "clock")
    ∷ telemetry (two_words "started" "at")
    ∷ telemetry (two_words "ended" "at")
    ∷ telemetry (two_words "game" "build")
    ∷ telemetry (two_words "client" "identity")
    ∷ telemetry (two_words "host" "platform")
    ∷ []

abbrev pub all_phrases : List ForbiddenPhrase
all_phrases = game_state_phrases ++ harness_telemetry_phrases

-- `phrase.tokens <= tokens`
abbrev pub contained : List (List ℕ) → List (List ℕ) → Bool
contained [] ts = true
contained (w ∷ ws) ts = one_of ts w && contained ws ts

-- The table that `_matches` goes through, as findings.
unfoldable pub matches : List ForbiddenPhrase → String → List (List ℕ) → List Violation
matches [] id words = []
matches (p ∷ ps) id words =
    let rest = matches ps id words in
    if contained p.tokens words
    then record { category = p.category; declaration_id = id } ∷ rest
    else rest

-- `_key_violations`
unfoldable pub key_violations : String → String → List Violation
unfolding matches tokenize
key_violations id key = matches all_phrases id (tokenize (codes key))

-- `_scan_nested`
unfoldable mutual
  pub scan_nested : String → Value → List Violation
  scan_nested id null = []
  scan_nested id (bool b) = []
  scan_nested id (num n) = []
  scan_nested id (text s) = []
  scan_nested id (arr xs) = scan_items id xs
  scan_nested id (obj fs) = scan_fields id fs

  pub scan_fields : String → Fields → List Violation
  scan_fields id end = []
  scan_fields id (field k v fs) = key_violations id k ++ (scan_nested id v ++ scan_fields id fs)

  pub scan_items : String → Items → List Violation
  scan_items id nil = []
  scan_items id (cons v vs) = scan_nested id v ++ scan_items id vs

-- The loop of `scan_observation_entries`.
unfoldable pub scan_entries : List ObservationEntry → List Violation
scan_entries [] = []
scan_entries (e ∷ es) =
    key_violations e.declaration_id e.key
    ++ (scan_nested e.declaration_id e.value ++ scan_entries es)

unfoldable pub scan_observation_entries : Observation → List Violation
unfolding scan_entries
scan_observation_entries o = scan_entries o.entries

-- `a in b`
abbrev pub occurs_in : List ℕ → List ℕ → Bool
occurs_in a [] = starts_with a []
occurs_in a (c ∷ cs) = starts_with a (c ∷ cs) || occurs_in a cs

unfoldable pub find_literal_leaks : (String → String) → List ℕ → List String → List String
find_literal_leaks strip s [] = []
find_literal_leaks strip s (v ∷ vs) =
    let rest = find_literal_leaks strip s vs in
    if not (length (codes (strip v)) == 0) && occurs_in (codes v) s then v ∷ rest else rest

-- `f"{decision_request.system}\n{decision_request.observation}"`
abbrev pub combined_text : DecisionRequest → List ℕ
combined_text request = codes request.system ++ (10 ∷ codes request.observation)

abbrev pub refuse_any {ℓ} : {A : Type ℓ} → List A → Result (Unit {0})
refuse_any [] = ok tt
refuse_any (v ∷ vs) = err parity_violation

abbrev pub then_literals : List Violation → List String → Result (Unit {0})
then_literals [] hits = refuse_any hits
then_literals (v ∷ vs) hits = err parity_violation

-- With a request, as the decision loop calls it.
unfoldable pub enforce_parity_boundary :
    (String → String) → Observation → DecisionRequest → List String → Result (Unit {0})
unfolding scan_observation_entries find_literal_leaks
enforce_parity_boundary strip o request forbidden =
    then_literals (scan_observation_entries o)
      (find_literal_leaks strip (combined_text request) forbidden)
