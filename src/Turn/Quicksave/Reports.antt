-- ===== src/Turn/Quicksave/Reports.antt =====
-- Every way out of the quicksave, with what it leaves on the timeline.
use civ_sim_taskify.Prelude.{
  ℕ, String, ◌≡◌, refl, ◌⊎◌, inl, inr, Bool, true, false, none, List, [], ◌∷◌, ◌++◌, length,
  Bool-cases, arith,
}
use civ_sim_taskify.Errors.{Error, Result, ok, err}
use civ_sim_taskify.Models.Event.{RunEvent, save_taken}
use civ_sim_taskify.Resilience.Recovery.{SavePoint, write_run_event}
use civ_sim_taskify.Saves.Headroom.{check_headroom}
use civ_sim_taskify.Run.Actions.{Outcome, failed, returned, and_then}
use civ_sim_taskify.Turn.State.{
  Deed, saved, Harness, TurnCycleDependencies, TurnFailure, raised, stopped, still_replaying, lift,
  turn_event,
}
use civ_sim_taskify.Turn.Quicksave.{
  is_headroom, is_failed_save, or_report, named_event, point, record_point, keep_point,
  quicksave_name, saved_size, low_space, failed_event, enough_space, save_and_keep, take_quicksave,
  build_save_point, write_save_point,
}
use civ_sim_taskify.Turn.Quicksave.Verified.{IsVerified, size-IsVerified}

module _ (deps : TurnCycleDependencies) (h : Harness) where
  abbrev name : String
  name = quicksave_name deps

  abbrev after : List Deed
  after = saved name ∷ h.deeds

  abbrev taken_event : RunEvent
  taken_event = named_event deps (turn_event deps save_taken (deps.clock after 2)) name

  -- What a quicksave leaves, by the way it ends.
  abbrev pub Reports : Outcome TurnFailure SavePoint × Harness → Type 0
  Reports (returned save, s) =
      (enough_space deps h.deeds ≡ ok tt)
      × (deps.save_game h.deeds name ≡ ok tt)
      × IsVerified deps after name
      × (save ≡ point deps (length h.store.save_points) name (deps.clock h.deeds 1))
      × (s.deeds ≡ after)
      × (s.store.save_points ≡ h.store.save_points ++ save ∷ [])
      × (s.store.events ≡ h.store.events ++ taken_event ∷ [])
  Reports (failed (raised e), s) =
      (s.store.save_points ≡ h.store.save_points)
      × (((enough_space deps h.deeds ≡ err e)
            × (s.deeds ≡ h.deeds)
            × (s.store.events ≡ h.store.events ++ low_space deps h.deeds ∷ []))
          ⊎ ((is_failed_save e ≡ true)
              × (saved_size deps h.deeds after ≡ err e)
              × (s.deeds ≡ after)
              × (s.store.events ≡ h.store.events ++ failed_event deps after ∷ []))
          ⊎ ((is_failed_save e ≡ false) × (s.deeds ≡ after) × (s.store.events ≡ h.store.events)))
  Reports (failed (stopped f), s) = ⊥
  Reports (failed still_replaying, s) = ⊥

  low_is_headroom :
      (free gb : ℕ) (e : Error) → check_headroom free gb none ≡ err e → is_headroom e ≡ true
  unfolding check_headroom
  low_is_headroom free gb e q = ground arith

  made_invalid :
      (is_name : String → Bool) (p : SavePoint) (e : Error)
      → build_save_point is_name p ≡ err e
      → is_failed_save e ≡ false
  unfolding build_save_point
  made_invalid is_name p e q = ground arith

  pub made_same :
      (is_name : String → Bool) (p made : SavePoint)
      → build_save_point is_name p ≡ ok made
      → made ≡ p
  unfolding build_save_point
  made_same is_name p made q = ground arith

  module _ (room : enough_space deps h.deeds ≡ ok tt) where
    made_Reports :
        (size : ℕ) (r : Result SavePoint)
        → saved_size deps h.deeds after ≡ ok size
        → build_save_point deps.is_save_name
            (point deps (length h.store.save_points) name (deps.clock h.deeds 1))
          ≡ r
        → Reports (and_then (lift r (record h { deeds = after })) (record_point deps name after))
    unfolding write_save_point write_run_event
    made_Reports size (err e) read q =
        (refl, inr (inr (made_invalid deps.is_save_name _ e q, refl, refl)))
    made_Reports size (ok save) read q =
        let (asked, v) = size-IsVerified deps h.deeds after size read in
        (room, asked, v, made_same deps.is_save_name _ save q, refl, refl, refl)

    read_Reports :
        (r : Result ℕ)
        → saved_size deps h.deeds after ≡ r
        → Reports (
            and_then
              (or_report is_failed_save (failed_event deps after) r (record h { deeds = after }))
              (λ size. keep_point deps name h.deeds after))
    unfolding write_run_event
    read_Reports (ok size) read = made_Reports size _ read refl
    read_Reports (err e) read = elim (Bool-cases (is_failed_save e)) [
      | inl caught ↦ rw caught (refl, inr (inl (caught, read, refl, refl)))
      | inr other ↦ rw other (refl, inr (inr (other, refl, refl)))
    ]

  space_Reports :
      (r : Result (Unit {0}))
      → enough_space deps h.deeds ≡ r
      → Reports (
          and_then
            (or_report is_headroom (low_space deps h.deeds) r h)
            (λ _. save_and_keep deps h.deeds))
  unfolding write_run_event
  space_Reports (ok u) room = read_Reports room _ refl
  space_Reports (err e) room =
      rw (low_is_headroom (deps.free_bytes h.deeds) deps.min_free_disk_gb e room)
        (refl, inl (room, refl, refl))

  -- A quicksave that returns found enough space, had the game save under the turn's name and found
  -- the file with one size in two reads, and leaves one more save point, verified and bound to the
  -- run and the turn, with its event. One that fails leaves no save point: either the space is too
  -- low, nothing is saved and the event of low headroom is written; or the game's connection or the
  -- check of the file fails, and the event of the failed save is written; or it is another error,
  -- with no event.
  pub take_quicksave-Reports : Reports (take_quicksave deps h)
  unfolding take_quicksave
  take_quicksave-Reports = space_Reports _ refl
