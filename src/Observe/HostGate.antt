-- ===== src/Observe/HostGate.antt =====
-- observe/host_gate.py and the tier of host/detect.py: what the evidence about a host permits.
pub mod Images
use civ_sim_taskify.Prelude.{String, Bool, true, false, Option, none, some, if◌then◌else◌}
use civ_sim_taskify.Errors.{Result, ok, err, preflight_error}
use civ_sim_taskify.Models.Run.{ComparabilityStatus, HostSupportTier, comparable, visually_degraded}
use civ_sim_taskify.Models.Run

pub record SupportProbeResult : Type 0 where
  pub quicksave_path_verified : Bool
  pub capture_hygiene_spike_passed : Bool
  pub reason : String

pub data SupportTier : Type 0 where
  unsupported supported validated : SupportTier

unfoldable pub resolve_support_tier : SupportProbeResult → SupportTier
resolve_support_tier probe =
    if probe.quicksave_path_verified
    then if probe.capture_hygiene_spike_passed then validated else supported
    else unsupported

pub record HostGateResult : Type 0 where
  pub tier : HostSupportTier
  pub comparability_status : ComparabilityStatus

abbrev pub gate_of : SupportTier → Result HostGateResult
gate_of unsupported = err preflight_error
gate_of supported = ok (record { tier = Run.supported; comparability_status = visually_degraded })
gate_of validated = ok (record { tier = Run.validated; comparability_status = comparable })

unfoldable pub evaluate_host_gate : SupportProbeResult → Result HostGateResult
unfolding resolve_support_tier
evaluate_host_gate probe = gate_of (resolve_support_tier probe)
