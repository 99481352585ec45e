-- ===== src/Selector/Probe.antt =====
-- health.go: what a probe's evidence says of an endpoint.
use virtual_cloud_help_servi.Prelude.{
  ℕ, ◌*◌, ◌≤◌, ◌≡◌, ◌↔◌, Bool, true, false, not, ◌||◌, ltb, if◌then◌else◌, arith,
}
use virtual_cloud_help_servi.Selector.Cooldown.{
  FailureClass, failure_none, failure_dns, failure_handshake, failure_transfer, failure_suspected,
  failure_allowlist, unknown,
}

abbrev pub minimum_verified_transfer_bytes : ℕ
minimum_verified_transfer_bytes = 64 * 1024

pub record ProbeEvidence : Type 0 where
  pub resolved : Bool
  pub allowed_witness_reachable : Bool
  pub endpoint_reachable : Bool
  pub handshake_complete : Bool
  pub protected_dns_resolved : Bool
  pub tunnel_route_confirmed : Bool
  pub uploaded_bytes : ℕ  -- uint64
  pub downloaded_bytes : ℕ  -- uint64

unfoldable pub classify_probe : ProbeEvidence → FailureClass
classify_probe evidence =
    if not evidence.resolved
    then failure_dns
    else if not evidence.endpoint_reachable
    then (if evidence.allowed_witness_reachable then failure_allowlist else failure_handshake)
    else if not evidence.handshake_complete
    then failure_handshake
    else if not evidence.protected_dns_resolved
        || not evidence.tunnel_route_confirmed
        || ltb evidence.uploaded_bytes minimum_verified_transfer_bytes
        || ltb evidence.downloaded_bytes minimum_verified_transfer_bytes
    then failure_transfer
    else failure_none

-- `class == FailureNone`
unfoldable pub is_none : FailureClass → Bool
is_none failure_none = true
is_none failure_dns = false
is_none failure_handshake = false
is_none failure_transfer = false
is_none failure_suspected = false
is_none failure_allowlist = false
is_none (unknown name) = false

unfoldable pub probe_healthy : ProbeEvidence → Bool
unfolding classify_probe is_none
probe_healthy evidence = is_none (classify_probe evidence)

-- A probe is healthy just where every step of it succeeded and 64 KiB went each way.
pub probe_healthy_iff :
    (evidence : ProbeEvidence)
    → (probe_healthy evidence ≡ true) ↔ (
        (evidence.resolved ≡ true)
        × (evidence.endpoint_reachable ≡ true)
        × (evidence.handshake_complete ≡ true)
        × (evidence.protected_dns_resolved ≡ true)
        × (evidence.tunnel_route_confirmed ≡ true)
        × (65_536 ≤ evidence.uploaded_bytes)
        × (65_536 ≤ evidence.downloaded_bytes))
unfolding probe_healthy
probe_healthy_iff evidence = (
  λ h. (
    ground arith,
    ground arith,
    ground arith,
    ground arith,
    ground arith,
    ground arith,
    ground arith,
  ),
  λ h. ground (arith, h),
)
