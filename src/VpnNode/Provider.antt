-- ===== src/VpnNode/Provider.antt =====
-- The checks of internal/vpnnode/provider.go, and the identifiers that node.go checks.
use virtual_cloud_help_servi.Prelude.{
  Bool, not, ◌||◌, List, [], ◌∷◌, ltb, length, Result, ok, reject, ◌>>◌,
}
use virtual_cloud_help_servi.Prelude.Text.{Text, bytes, text_eq}
use virtual_cloud_help_servi.Patterns.{matches, is_lower_alnum, is_id_char}

pub data ProviderFault : Type 0 where
  bad_id bad_region bad_ssh_key too_many_labels bad_label : ProviderFault
  bad_provider bad_status bad_public_ip : ProviderFault

abbrev pub identifier_pattern : Text → Bool
identifier_pattern = matches is_lower_alnum is_id_char 62

abbrev pub region_pattern : Text → Bool
region_pattern = matches is_lower_alnum is_id_char 62

unfoldable pub validate_id : Text → Result ProviderFault (Unit {0})
validate_id id = reject (not (identifier_pattern id)) bad_id

pub record CreateNodeInput : Type 0 where
  pub region : Text
  pub ssh_public_key_reference : Text
  pub labels : List (Text × Text)  -- a map: distinct keys, ranged over in some order

pub record NodeRecord : Type 0 where
  pub id : Text
  pub provider : Text
  pub region : Text
  pub status : Text

-- What the program asks of a netip.Addr.
pub record Address : Type 0 where
  pub is_valid : Bool
  pub is_unspecified : Bool
  pub is_private : Bool
  pub is_loopback : Bool
  pub is_link_local_unicast : Bool

pub record PublicIp : Type 0 where
  pub id : Text
  pub address : Address

unfoldable pub check_labels : List (Text × Text) → Result ProviderFault (Unit {0})
check_labels [] = ok tt
check_labels ((key, value) ∷ rest) = do
  reject (not (identifier_pattern key) || text_eq value [] || ltb 128 (length value)) bad_label
  check_labels rest

unfoldable pub validate_create_node_input : CreateNodeInput → Result ProviderFault (Unit {0})
validate_create_node_input input = do
  reject (not (region_pattern input.region)) bad_region
  reject
      (text_eq input.ssh_public_key_reference [] || ltb 256 (length input.ssh_public_key_reference))
      bad_ssh_key
  reject (ltb 32 (length input.labels)) too_many_labels
  check_labels input.labels

unfoldable pub validate_node_record : NodeRecord → Result ProviderFault (Unit {0})
validate_node_record node = do
  validate_id node.id
  reject
      (text_eq node.provider []
        || ltb 64 (length node.provider)
        || not (region_pattern node.region))
      bad_provider
  reject
      (not (
        text_eq node.status (bytes "pending")
        || text_eq node.status (bytes "ready")
        || text_eq node.status (bytes "failed")))
      bad_status

unfoldable pub validate_public_ip : PublicIp → Result ProviderFault (Unit {0})
validate_public_ip ip =
    reject
      (text_eq ip.id []
        || ltb 128 (length ip.id)
        || not ip.address.is_valid
        || ip.address.is_unspecified
        || ip.address.is_private
        || ip.address.is_loopback
        || ip.address.is_link_local_unicast)
      bad_public_ip
