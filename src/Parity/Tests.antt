-- ===== src/Parity/Tests.antt =====
-- Runs of the scan on concrete observations.
use civ_sim_taskify.Prelude.{◌≡◌, refl, ◌↔◌, String, [], ◌∷◌, All}
use civ_sim_taskify.Errors.{ok, err, parity_violation}
use civ_sim_taskify.Models.Value.{obj, text, end, field}
use civ_sim_taskify.Models.Turn.{Observation, in_game}
use civ_sim_taskify.Provider.Port.{DecisionRequest}
use civ_sim_taskify.Parity.Forbidden.Names.{
  HasPermittedNames, IsAbsent, enforce_parity_boundary-ok_iff,
}
use civ_sim_taskify.Predicate.Values.{codes}
use civ_sim_taskify.Parity.Forbidden.{
  tokenize, tokens_from, matches, key_violations, scan_nested, scan_entries,
  scan_observation_entries, enforce_parity_boundary,
}

hidden_key : tokenize (codes "hiddenAiIntent") ≡ codes "hidden" ∷ codes "ai" ∷ codes "intent" ∷ []
unfolding tokenize tokens_from
hidden_key = refl

spaced_key : tokenize (codes "RNG Seed_2x") ≡ codes "rng" ∷ codes "seed" ∷ codes "2x" ∷ []
unfolding tokenize tokens_from
spaced_key = refl

abbrev trim : String → String
trim s = s

abbrev seen : Observation
seen = record {
  observation_id = 1;
  decision_step_id = 1;
  assembled_at = 0;
  catalog_version = "1";
  entries =
      record {
        declaration_id = "map.state";
        key = "map.state";
        value = obj (field "tile" (obj (field "rngSeed" (text "4711") end)) end);
        context = in_game;
      }
      ∷ [];
  captures = [];
  screen_identity = "world";
}

abbrev request : DecisionRequest
request = record {
  model = record { provider = "a"; model = "large" };
  system = "play";
  observation = "map";
  images = [];
  step_index = 1;
}

seed_refused : enforce_parity_boundary trim seen request [] ≡ err parity_violation
unfolding enforce_parity_boundary scan_observation_entries scan_entries scan_nested key_violations
    matches tokenize tokens_from
seed_refused = refl

enforce_parity_boundary-ok_iff_example :
    (enforce_parity_boundary trim seen request ("run-0001" ∷ []) ≡ ok tt)
    ↔ (HasPermittedNames seen × All (IsAbsent trim request) ("run-0001" ∷ []))
enforce_parity_boundary-ok_iff_example =
    enforce_parity_boundary-ok_iff trim seen request ("run-0001" ∷ [])
