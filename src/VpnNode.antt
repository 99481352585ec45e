-- ===== src/VpnNode.antt =====
-- internal/vpnnode/node.go: the bounds that a node's reports must keep. Metrics are not modelled:
-- they hold a floating-point number.
pub mod Reports
pub mod Provider
use virtual_cloud_help_servi.Prelude.{
  ℕ, ◌+◌, Bool, not, ◌&&◌, ◌||◌, List, [], ◌∷◌, ltb, ◌==◌, length, if◌then◌else◌, Result, ok, err,
  reject, ◌>>=◌, ◌>>◌,
}
use virtual_cloud_help_servi.Prelude.Text.{Text, bytes, text_eq, text_lt, contains}
use virtual_cloud_help_servi.Prelude.Sort.{sort_by}
use virtual_cloud_help_servi.GoTime.{Instant, is_zero}

pub data NodeFault : Type 0 where
  unsupported_transport capabilities_range duplicate_transport : NodeFault
  invalid_state health_time_required health_range ready_needs_all_up : NodeFault
  degraded_needs_both down_needs_all_down : NodeFault
  inventory_time_required inventory_os_required inventory_range : NodeFault
  listener_network listener_fields workload_fields : NodeFault

pub record TransportHealth : Type 0 where
  pub transport : Text
  pub up : Bool

pub record Health : Type 0 where
  pub state : Text
  pub transports : List TransportHealth
  pub observed_at : Instant

pub record Listener : Type 0 where
  pub network : Text
  pub address : Text
  pub port : ℕ  -- uint16
  pub owner : Text
  pub is_public : Bool

pub record Workload : Type 0 where
  pub name : Text
  pub image : Text
  pub runtime : Text
  pub state : Text
  pub restart_policy : Text

pub record Inventory : Type 0 where
  pub os : Text
  pub kernel : Text
  pub listeners : List Listener
  pub workloads : List Workload
  pub observed_at : Instant

abbrev pub state_ready : Text
state_ready = bytes "READY"

abbrev pub state_degraded : Text
state_degraded = bytes "DEGRADED"

abbrev pub state_down : Text
state_down = bytes "DOWN"

unfoldable pub validate_transport : Text → Result NodeFault (Unit {0})
validate_transport value =
    reject (not (text_eq value (bytes "amneziawg")) && not (text_eq value (bytes "xray_reality")))
      unsupported_transport

-- The loop of `ValidateCapabilities`.
unfoldable pub check_capabilities : List Text → List Text → Result NodeFault (Unit {0})
check_capabilities seen [] = ok tt
check_capabilities seen (value ∷ rest) = do
  validate_transport value
  reject (contains seen value) duplicate_transport
  check_capabilities (value ∷ seen) rest

unfoldable pub validate_capabilities : List Text → Result NodeFault (Unit {0})
validate_capabilities values = do
  reject (length values == 0 || ltb 8 (length values)) capabilities_range
  check_capabilities [] values

unfoldable pub canonical_capabilities : List Text → Result NodeFault (List Text)
canonical_capabilities values = do validate_capabilities values; ok (sort_by text_lt values)

-- The loop of `ValidateHealth`: it counts the transports that are up.
unfoldable pub count_up : List Text → ℕ → List TransportHealth → Result NodeFault ℕ
count_up seen up [] = ok up
count_up seen up (item ∷ rest) = do
  validate_transport item.transport
  reject (contains seen item.transport) duplicate_transport
  count_up (item.transport ∷ seen) (if item.up then up + 1 else up) rest

unfoldable pub validate_health : Health → Result NodeFault (Unit {0})
validate_health value = do
  reject
      (not (text_eq value.state state_ready)
        && not (text_eq value.state state_degraded)
        && not (text_eq value.state state_down))
      invalid_state
  reject (is_zero value.observed_at) health_time_required
  reject (length value.transports == 0 || ltb 8 (length value.transports)) health_range
  up ← count_up [] 0 value.transports
  reject (text_eq value.state state_ready && not (up == length value.transports)) ready_needs_all_up
  reject (text_eq value.state state_degraded && (up == 0 || up == length value.transports))
      degraded_needs_both
  reject (text_eq value.state state_down && not (up == 0)) down_needs_all_down

-- `is_ip` is net.ParseIP(s) != nil.
module _ (is_ip : Text → Bool) where
  unfoldable pub check_listeners : List Listener → Result NodeFault (Unit {0})
  check_listeners [] = ok tt
  check_listeners (listener ∷ rest) = do
    reject
        (not (text_eq listener.network (bytes "tcp"))
          && not (text_eq listener.network (bytes "udp")))
        listener_network
    reject (listener.port == 0 || text_eq listener.owner [] || not (is_ip listener.address))
        listener_fields
    check_listeners rest

  unfoldable pub check_workloads : List Workload → Result NodeFault (Unit {0})
  check_workloads [] = ok tt
  check_workloads (workload ∷ rest) = do
    reject (text_eq workload.name [] || text_eq workload.runtime [] || text_eq workload.state [])
        workload_fields
    check_workloads rest

  unfoldable pub validate_inventory : Inventory → Result NodeFault (Unit {0})
  validate_inventory value = do
    reject (is_zero value.observed_at) inventory_time_required
    reject (text_eq value.os [] || text_eq value.kernel []) inventory_os_required
    reject (ltb 256 (length value.listeners) || ltb 256 (length value.workloads)) inventory_range
    check_listeners value.listeners
    check_workloads value.workloads
