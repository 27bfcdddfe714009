-- ===== src/Turn/Protocol/Once.antt =====
-- The records that a turn writes: one at most is authoritative, and no two have the same index.
use civ_sim_taskify.Prelude.{
  ℕ, suc, ◌+◌, ◌≤◌, ◌<◌, ◌≡◌, refl, ap, subst, List, [], ◌∷◌, ◌++◌, if◌then◌else◌, arith,
}
use civ_sim_taskify.Models.Run.{Run}
use civ_sim_taskify.Run.Actions.{Outcome, failed, returned, Ends}
use civ_sim_taskify.Resilience.Recovery.{SavePoint}
use civ_sim_taskify.Store.Guard.{TurnCycle}
use civ_sim_taskify.Turn.State.{
  Deed, wrote_cycle, Harness, TurnCycleDependencies, TurnCycleOutcome, TurnFailure,
}
use civ_sim_taskify.Turn.Cycle.{run_turn_cycle}
use civ_sim_taskify.Turn.Protocol.{
  Phase, waiting, taking, ready, over, given_up, mending, sealed, asking, ending, reading, Follows,
  begins, probes, passes, saves, verifies, plays, gives_up, recovers, recovers_written, replays,
  seals, looks, ends, reads,
}
use civ_sim_taskify.Turn.Protocol.Starts.{Somewhere}
use civ_sim_taskify.Turn.Protocol.Seals.{Turned, run_turn_cycle-Follows}
use civ_sim_taskify.Prelude.{inl, inr}

-- How many authoritative records were written.
abbrev pub authoritative : List Deed → ℕ
authoritative [] = 0
authoritative (wrote_cycle tc steps ∷ ds) =
    (if tc.is_authoritative then 1 else 0) + authoritative ds
authoritative (d ∷ ds) = authoritative ds

-- The attempt indices of the records that were written, the last one first.
abbrev pub indices : List Deed → List ℕ
indices [] = []
indices (wrote_cycle tc steps ∷ ds) = tc.attempt_index ∷ indices ds
indices (d ∷ ds) = indices ds

-- Indices that fall from below a bound to no less than a base.
abbrev pub Falls : ℕ → ℕ → List ℕ → Type 0
Falls base top [] = Unit
Falls base top (i ∷ is) = (base ≤ i) × (i < top) × Falls base i is

Falls-below :
    (base top more : ℕ) (is : List ℕ) → top ≤ more → Falls base top is → Falls base more is
Falls-below base top more [] le f = tt
Falls-below base top more (i ∷ is) le (a, b, c) = (a, omega arith, c)

abbrev seals_in : Phase → ℕ
seals_in (sealed tc) = 1
seals_in (asking tc) = 1
seals_in (ending tc) = 1
seals_in (reading tc) = 1
seals_in p = 0

-- The bound of the indices that were written by the phase, if there is one.
abbrev top_of : ℕ → Phase → ℕ
top_of base waiting = base
top_of base (taking name) = base
top_of base (ready i) = i
top_of base (over i id before) = i
top_of base (given_up i) = suc i
top_of base (mending i) = suc i
top_of base (sealed tc) = suc tc.attempt_index
top_of base (asking tc) = suc tc.attempt_index
top_of base (ending tc) = suc tc.attempt_index
top_of base (reading tc) = suc tc.attempt_index

module _ (deps : TurnCycleDependencies) (d0 : List Deed) where
  -- The indices of this turn's records, in front of those before it.
  abbrev pub NewIndices : ℕ → List ℕ → Type 0
  NewIndices top is =
      (new : List ℕ) × (is ≡ new ++ indices d0)
      × (deps.attempt_index_base ≤ top)
      × Falls deps.attempt_index_base top new

  added :
      (i : ℕ) (tc : TurnCycle) (is : List ℕ)
      → tc.attempt_index ≡ i
      → NewIndices i is
      → NewIndices (suc tc.attempt_index) (tc.attempt_index ∷ is)
  added i tc is same (new, e, low, f) = (
    tc.attempt_index ∷ new,
    ap (λ z. tc.attempt_index ∷ z) e,
    omega arith,
    (omega arith, omega arith, rw same f),
  )

module _ (deps : TurnCycleDependencies) (save : SavePoint) (d0 : List Deed) where
  count :
      {p : Phase} {ds : List Deed}
      → Follows deps save d0 p ds
      → authoritative ds ≡ seals_in p + authoritative d0
  count begins = omega arith
  count (probes f) = count f
  count (passes f) = count f
  count (saves name f) = count f
  count (verifies f v w e) = count f
  count (plays id calls begun new f) = count f
  count (gives_up f g) = rw g.never_authoritative (omega (arith, count f))
  count (recovers f) = count f
  count (recovers_written f) = count f
  count (replays f) = count f
  count (seals f g) = rw g.authoritative (omega (arith, count f))
  count (looks f e) = count f
  count (ends name f) = count f
  count (reads f) = count f

  numbers :
      {p : Phase} {ds : List Deed}
      → Follows deps save d0 p ds
      → NewIndices deps d0 (top_of deps.attempt_index_base p) (indices ds)
  numbers begins = ([], refl, omega arith, tt)
  numbers (probes f) = numbers f
  numbers (passes f) = numbers f
  numbers (saves name f) = numbers f
  numbers (verifies {i = i} f v w e) =
      let (new, a, b, c) = numbers f in (new, a, omega arith, Falls-below _ _ i new (omega arith) c)
  numbers (plays id calls begun new f) = numbers f
  numbers (gives_up {ds = ds} {i = i} {tc = tc} f g) =
      subst (λ k. NewIndices deps d0 (suc k) (tc.attempt_index ∷ indices ds)) g.of_turn.of_attempt
        (added deps d0 i tc (indices ds) g.of_turn.of_attempt (numbers f))
  numbers (recovers {i = i} f) =
      let (new, a, b, c) = numbers f in
      (new, a, omega arith, Falls-below _ i (suc i) new (omega arith) c)
  numbers (recovers_written f) = numbers f
  numbers (replays f) = numbers f
  numbers (seals {ds = ds} {i = i} {tc = tc} f g) =
      added deps d0 i tc (indices ds) g.of_turn.of_attempt (numbers f)
  numbers (looks f e) = numbers f
  numbers (ends name f) = numbers f
  numbers (reads f) = numbers f

-- The number of authoritative records, and the indices of all records of the turn.
abbrev pub WritesOnce :
    TurnCycleDependencies → Harness → Outcome TurnFailure TurnCycleOutcome × Harness → Type 0
WritesOnce deps h (returned o, s) =
    (authoritative s.deeds ≡ authoritative h.deeds + 1)
    × ((top : ℕ) × NewIndices deps h.deeds top (indices s.deeds))
WritesOnce deps h (failed e, s) =
    (authoritative s.deeds ≤ authoritative h.deeds + 1)
    × ((top : ℕ) × NewIndices deps h.deeds top (indices s.deeds))

seals_once : (p : Phase) → seals_in p ≤ 1
seals_once waiting = omega arith
seals_once (sealed tc) = omega arith
seals_once (asking tc) = omega arith
seals_once (ending tc) = omega arith
seals_once (reading tc) = omega arith
seals_once (taking n) = omega arith
seals_once (ready i) = omega arith
seals_once (over i id before) = omega arith
seals_once (given_up i) = omega arith
seals_once (mending i) = omega arith

module _ (deps : TurnCycleDependencies) (fuel : ℕ) (run : Run) (h : Harness) where
  from_follows :
      (r : Outcome TurnFailure TurnCycleOutcome × Harness)
      → Ends (Somewhere deps h) (Turned deps h) r
      → WritesOnce deps h r
  from_follows (returned o, s) (save, own, tc, same, inl (e, f)) =
      (omega (arith, count deps save h.deeds f), (_, numbers deps save h.deeds f))
  from_follows (returned o, s) (save, own, tc, same, inr (e, f, c)) =
      (omega (arith, count deps save h.deeds f), (_, numbers deps save h.deeds f))
  from_follows (failed e, s) (save, own, p, f) =
      (omega (arith, count deps save h.deeds f, seals_once p), (_, numbers deps save h.deeds f))

  -- A turn that returns has written exactly one authoritative record, and one that fails one at most.
  -- In either case the attempt indices of the records that the turn wrote, abandoned attempts
  -- included, are not below the base that the caller gave and grow from each record to the next, so that
  -- no two are the same.
  pub run_turn_cycle-WritesOnce : WritesOnce deps h (run_turn_cycle deps fuel run h)
  run_turn_cycle-WritesOnce =
      from_follows (run_turn_cycle deps fuel run h) (run_turn_cycle-Follows deps fuel run h)
