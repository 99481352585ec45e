-- ===== src/Tests/Nodes.antt =====
-- A node's reports.
use virtual_cloud_help_servi.Prelude.{◌<◌, ◌≡◌, refl, true, false, List, [], ◌∷◌, length, All, ok}
use mathlib.Core.List.{Perm}
use virtual_cloud_help_servi.Prelude.Text.{Text, bytes, text_eq, text_lt, contains}
use virtual_cloud_help_servi.Prelude.Sort.{insert_by, sort_by, IsSorted}
use virtual_cloud_help_servi.VpnNode.{
  TransportHealth, Health, state_ready, state_degraded, state_down, validate_transport,
  check_capabilities, validate_capabilities, canonical_capabilities, count_up, validate_health,
}
use virtual_cloud_help_servi.VpnNode.Reports.{
  up_among, validate_health-states, IsCanonical, canonical_capabilities-IsCanonical,
}

abbrev one_down : Health
one_down = record {
  state = bytes "DEGRADED";
  transports =
      record { transport = bytes "amneziawg"; up = true }
      ∷ record { transport = bytes "xray_reality"; up = false }
      ∷ [];
  observed_at = 1;
}

one_down_valid : validate_health one_down ≡ ok tt
unfolding text_eq contains validate_transport count_up validate_health
one_down_valid = refl

validate_health-states_example :
    (text_eq one_down.state state_ready ≡ true
      → All (λ (t : TransportHealth). t.up ≡ true) one_down.transports)
    × (text_eq one_down.state state_down ≡ true
        → All (λ (t : TransportHealth). t.up ≡ false) one_down.transports)
    × (text_eq one_down.state state_degraded ≡ true
        → (0 < up_among one_down.transports)
          × (up_among one_down.transports < length one_down.transports))
validate_health-states_example = validate_health-states one_down one_down_valid

abbrev both : List Text
both = bytes "xray_reality" ∷ bytes "amneziawg" ∷ []

sorted_both : canonical_capabilities both ≡ ok (bytes "amneziawg" ∷ bytes "xray_reality" ∷ [])
unfolding text_eq text_lt contains insert_by sort_by validate_transport check_capabilities
    validate_capabilities canonical_capabilities
sorted_both = refl

canonical_capabilities-IsCanonical_example :
    IsCanonical (bytes "amneziawg" ∷ bytes "xray_reality" ∷ [])
    × Perm (bytes "amneziawg" ∷ bytes "xray_reality" ∷ []) both
    × IsSorted text_lt (bytes "amneziawg" ∷ bytes "xray_reality" ∷ [])
canonical_capabilities-IsCanonical_example = canonical_capabilities-IsCanonical both sorted_both
