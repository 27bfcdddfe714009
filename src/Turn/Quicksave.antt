-- ===== src/Turn/Quicksave.antt =====
-- run/turn_cycle.py, saves/save_point.py and saves/verify.py: the save at the start of a turn.
pub mod Verified
pub mod Reports
use Prim.Native.String.{◌++◌}
use civ_sim_taskify.Prelude.{
  ℕ, String, Bool, true, false, not, ◌||◌, Option, none, some, List, [], ◌∷◌, ltb, length, ◌==◌,
  if◌then◌else◌,
}
use civ_sim_taskify.Prelude
use civ_sim_taskify.Errors.{
  Error, Result, ok, err, save_verification_error, nexus_error, disk_headroom_error,
  validation_error, raise_if,
}
use civ_sim_taskify.Errors
use civ_sim_taskify.Models.Run.{Timestamp}
use civ_sim_taskify.Models.Event.{RunEvent, save_taken, save_failed, save}
use civ_sim_taskify.Resilience.Recovery.{SavePoint, World, retained}
use civ_sim_taskify.Saves.Headroom.{check_headroom, build_disk_headroom_event}
use civ_sim_taskify.Run.Actions.{failed, returned, pure, fail, only_if, gets, ◌>>=◌, ◌>>◌}
use civ_sim_taskify.Turn.State.{
  Deed, saved, Harness, TurnCycleDependencies, raised, Do, lift, deeds_now, tell, write_event,
  turn_event,
}

-- saves/verify.py: the size of a file that is there and of one size in both reads.
unfoldable pub verify_save : Option ℕ → Option ℕ → Result ℕ
verify_save none second = err save_verification_error
verify_save (some a) none = err save_verification_error
verify_save (some a) (some b) = if a == b then ok b else err save_verification_error

-- saves/save_point.py, with Python's format of a number to four digits at least.
unfoldable pub save_name_for : (ℕ → String) → String → ℕ → String
save_name_for format run_id turn = "civsim__" ++ (run_id ++ ("__t" ++ format turn))

-- `build_save_point` of a save that was verified, with the constraints of `SavePoint`.
unfoldable pub build_save_point : (String → Bool) → SavePoint → Result SavePoint
build_save_point is_save_name s =
    Errors.◌>>◌ (raise_if (ltb s.turn_number 1 || not (is_save_name s.save_name)) validation_error)
      (ok s)

-- `write_save_point`
unfoldable pub write_save_point : SavePoint → Do (Unit {0})
write_save_point s h = (
  returned tt,
  record h { store = record h.store { save_points = Prelude.◌++◌ h.store.save_points (s ∷ []) } },
)

-- `except DiskHeadroomError` and `except (NexusError, SaveVerificationError)`
abbrev pub is_headroom : Error → Bool
is_headroom disk_headroom_error = true
is_headroom e = false

abbrev pub is_failed_save : Error → Bool
is_failed_save nexus_error = true
is_failed_save save_verification_error = true
is_failed_save e = false

-- The event of an exception that is caught, and the exception again.
abbrev pub or_report : {A : Type 0} → (Error → Bool) → RunEvent → Result A → Do A
or_report caught event (ok a) = pure a
or_report caught event (err e) = only_if (caught e) (write_event event) >> fail (raised e)

module _ (deps : TurnCycleDependencies) where
  abbrev pub named_event : RunEvent → String → RunEvent
  named_event e name = record e { detail = save name }

  abbrev pub point : ℕ → String → Timestamp → SavePoint
  point id name at = record {
    save_point_id = id;
    run_id = deps.run_id;
    turn_number = deps.turn_number;
    save_name = name;
    taken_at = at;
    verified = true;
    retention_status = retained;
    missing = false;
  }

  abbrev pub record_point : String → List Deed → SavePoint → Do SavePoint
  record_point name after made = do
    write_save_point made
    write_event (named_event (turn_event deps save_taken (deps.clock after 2)) name)
    pure made

  -- The save point, its record and its event. It is numbered by those that the store has.
  abbrev pub keep_point : String → List Deed → List Deed → Do SavePoint
  keep_point name ds after = do
    id ← gets (λ h. length h.store.save_points)
    made ← lift (build_save_point deps.is_save_name (point id name (deps.clock ds 1)))
    record_point name after made

  abbrev pub quicksave_name : String
  quicksave_name = save_name_for deps.format_turn deps.run_id deps.turn_number

  -- The call of the save capability, and the size of the file that it left.
  abbrev pub saved_size : List Deed → List Deed → Result ℕ
  saved_size ds after = Errors.◌>>=◌ (deps.save_game ds quicksave_name) (λ _.
      verify_save (deps.first_size after quicksave_name) (deps.second_size after quicksave_name))

  abbrev pub low_space : List Deed → RunEvent
  low_space ds = build_disk_headroom_event deps.run_id (deps.clock ds 0) (some deps.turn_number)

  abbrev pub failed_event : List Deed → RunEvent
  failed_event after = named_event (turn_event deps save_failed (deps.clock after 1)) quicksave_name

  abbrev pub enough_space : List Deed → Result (Unit {0})
  enough_space ds = check_headroom (deps.free_bytes ds) deps.min_free_disk_gb none

  abbrev pub save_and_keep : List Deed → Do SavePoint
  save_and_keep ds = do
    tell (saved quicksave_name)
    after ← deeds_now
    size ← or_report is_failed_save (failed_event after) (saved_size ds after)
    keep_point quicksave_name ds after

  -- `_take_quicksave`
  unfoldable pub take_quicksave : Do SavePoint
  unfolding check_headroom verify_save save_name_for build_save_point write_save_point
      build_disk_headroom_event
  take_quicksave = do
    ds ← deeds_now
    or_report is_headroom (low_space ds) (enough_space ds)
    save_and_keep ds
