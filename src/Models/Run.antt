-- ===== src/Models/Run.antt =====
-- civsim_harness/models/run.py: the run record, its enumerations and its validator.
use civ_sim_taskify.Prelude.{
  ℕ, String, ◌≡◌, Bool, true, false, not, ◌&&◌, Option, none, some, ltb, ◌==◌,
}
use civ_sim_taskify.Errors.{Result, ok, validation_error, raise_if, ◌>>◌}

-- A point in time is stored and copied, and never computed with.
abbrev pub Timestamp : Type 0
Timestamp = ℕ

pub data LifecycleState : Type 0 where
  preparing playing waiting_on_model waiting_on_game paused : LifecycleState
  interrupted resuming finished failed : LifecycleState

pub data StopResolution : Type 0 where
  turn_reached victory defeat operator_stop unrecoverable_failure : StopResolution

pub data RecordCompletenessStatus : Type 0 where
  complete has_gaps unknown : RecordCompletenessStatus

pub data ComparabilityStatus : Type 0 where
  comparable visually_degraded not_comparable : ComparabilityStatus

pub data HostSupportTier : Type 0 where
  validated supported : HostSupportTier

abbrev pub is_some {ℓ} : {A : Type ℓ} → Option A → Bool
is_some none = false
is_some (some a) = true

abbrev pub is_none {ℓ} : {A : Type ℓ} → Option A → Bool
is_none o = not (is_some o)

abbrev ordinal : LifecycleState → ℕ
ordinal preparing = 0
ordinal playing = 1
ordinal waiting_on_model = 2
ordinal waiting_on_game = 3
ordinal paused = 4
ordinal interrupted = 5
ordinal resuming = 6
ordinal finished = 7
ordinal failed = 8

-- Equality of members of the enumeration.
abbrev pub same_state : LifecycleState → LifecycleState → Bool
same_state a b = ordinal a == ordinal b

-- Membership in `TERMINAL_STATES`.
abbrev pub is_terminal : LifecycleState → Bool
is_terminal finished = true
is_terminal failed = true
is_terminal _ = false

-- The catalog versions, the client identity and the host platform are carried as opaque text.
pub record Run : Type 0 where
  pub run_id : String
  pub config_id : String
  pub lifecycle_state : LifecycleState
  pub started_at : Option Timestamp
  pub ended_at : Option Timestamp
  pub stop_resolution : Option StopResolution
  pub record_completeness_status : RecordCompletenessStatus
  pub comparability_status : ComparabilityStatus
  pub observation_catalog_version : String
  pub action_catalog_version : String
  pub parent_run_id : Option String
  pub parent_turn : Option ℕ
  pub client_identity : String
  pub game_build : String
  pub game_build_acceptance_ref : Option String
  pub host_platform : String
  pub host_support_tier : HostSupportTier
  pub archived_at : Option Timestamp
  pub capture_path : String

-- `parent_turn: int | None = Field(default=None, ge=1)` is broken.
abbrev pub parent_turn_low : Option ℕ → Bool
parent_turn_low none = false
parent_turn_low (some n) = ltb n 1

-- `Run.model_validate`: the field constraint, then `_terminal_state_invariants`.
unfoldable pub validate : Run → Result Run
validate r = do
  raise_if (parent_turn_low r.parent_turn) validation_error
  raise_if (same_state r.lifecycle_state finished && is_none r.stop_resolution) validation_error
  raise_if (not (is_terminal r.lifecycle_state) && is_some r.stop_resolution) validation_error
  raise_if (is_some r.archived_at && not (is_terminal r.lifecycle_state)) validation_error
  ok r

-- What a constructed run satisfies.
pub record IsValid (r : Run) : Type 0 where
  pub parent_turn_positive : parent_turn_low r.parent_turn ≡ false
  pub finished_resolved : r.lifecycle_state ≡ finished → is_some r.stop_resolution ≡ true
  pub resolved_terminal : is_some r.stop_resolution ≡ true → is_terminal r.lifecycle_state ≡ true
  pub archived_terminal : is_some r.archived_at ≡ true → is_terminal r.lifecycle_state ≡ true
