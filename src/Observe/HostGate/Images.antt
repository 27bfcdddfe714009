-- ===== src/Observe/HostGate/Images.antt =====
-- The gate against the permission that the decision loop reads off the run.
use civ_sim_taskify.Prelude.{◌≡◌, ◌↔◌, refl, subst, Bool, true, false, some, if◌then◌else◌}
use civ_sim_taskify.Errors.{ok, ok-path}
use civ_sim_taskify.Models.Run.{Run, comparable}
use civ_sim_taskify.Run.FreshRead.{is_validated, images_permitted_for_run}
use civ_sim_taskify.Observe.HostGate.{
  SupportProbeResult, SupportTier, unsupported, supported, validated, HostGateResult,
  resolve_support_tier, gate_of, evaluate_host_gate,
}

-- The run as preparation records it.
abbrev pub with_gate : Run → HostGateResult → Run
with_gate r g = record r {
  host_support_tier = g.tier;
  comparability_status = g.comparability_status;
}

abbrev tier_of : Bool → Bool → SupportTier
tier_of quicksave spike = if quicksave then if spike then validated else supported else unsupported

tier_permits :
    (quicksave spike : Bool) (g : HostGateResult)
    → gate_of (tier_of quicksave spike) ≡ ok g
    → (quicksave ≡ true)
      × ((is_validated g.tier ≡ true) ↔ (spike ≡ true))
      × ((g.comparability_status ≡ comparable) ↔ (spike ≡ true))
tier_permits false spike g h = absurd (cc)
tier_permits true true g h =
    subst
      (λ z.
        (true ≡ true)
        × ((is_validated z.tier ≡ true) ↔ (true ≡ true))
        × ((z.comparability_status ≡ comparable) ↔ (true ≡ true)))
      (ok-path h) (refl, ((λ _. refl), λ _. refl), ((λ _. refl), λ _. refl))
tier_permits true false g h =
    subst
      (λ z.
        (true ≡ true)
        × ((is_validated z.tier ≡ true) ↔ (false ≡ true))
        × ((z.comparability_status ≡ comparable) ↔ (false ≡ true)))
      (ok-path h)
      (refl, ((λ q. absurd (cc)), λ q. absurd (cc)), ((λ q. absurd (cc)), λ q. absurd (cc)))

-- A host that passes the gate has a verified path for quicksaves. The run that is recorded for it
-- may show images exactly if the capture spike of the host passed, and starts as comparable under
-- just the same condition.
pub evaluate_host_gate_permits :
    (probe : SupportProbeResult) (g : HostGateResult) (r : Run)
    → evaluate_host_gate probe ≡ ok g
    → (probe.quicksave_path_verified ≡ true)
      × ((images_permitted_for_run (some (with_gate r g)) ≡ true)
          ↔ (probe.capture_hygiene_spike_passed ≡ true))
      × ((g.comparability_status ≡ comparable) ↔ (probe.capture_hygiene_spike_passed ≡ true))
unfolding evaluate_host_gate resolve_support_tier images_permitted_for_run
evaluate_host_gate_permits probe g r h =
    tier_permits probe.quicksave_path_verified probe.capture_hygiene_spike_passed g h
