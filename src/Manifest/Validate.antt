-- ===== src/Manifest/Validate.antt =====
-- The validation of documents and catalogs in internal/manifest/manifest.go.
use virtual_cloud_help_servi.Prelude.{
  ◌*◌, Bool, not, ◌&&◌, ◌||◌, List, [], ◌∷◌, ltb, leb, ◌==◌, length, if◌then◌else◌, ok, err, reject,
  or_fail, ◌>>=◌, ◌>>◌,
}
use virtual_cloud_help_servi.Prelude.Text.{Text, bytes, text_eq, contains}
use virtual_cloud_help_servi.GoTime.{Duration, hour, minute, is_zero, before, elapsed}
use virtual_cloud_help_servi.Patterns.{
  is_lower_alnum, is_id_char, is_alnum, is_upper, matches, matches_exactly, is_hostname,
}
use virtual_cloud_help_servi.Strconv.{valid_port}
use virtual_cloud_help_servi.Platform.{Platform, Url}
use virtual_cloud_help_servi.Manifest.Types.{
  DiscoveryEndpoint, Endpoint, Node, Document, schema_version, transport_amneziawg,
  transport_reality,
}
use virtual_cloud_help_servi.Manifest.Fault.{
  Outcome, unsupported_schema, document_version_zero, catalog_revision_zero, times_required,
  expiry_not_after_issuance, lifetime_too_long, policy_unsigned, discovery_count,
  discovery_invalid_id, discovery_duplicate_id, discovery_priority, discovery_url, discovery_host,
  discovery_port, node_count, node_invalid_id, node_duplicate_id, node_region, node_country,
  node_provider, node_asn, node_endpoint_count, endpoint_duplicate_id, endpoint_invalid_id,
  endpoint_address, endpoint_port, endpoint_credential, endpoint_priority, endpoint_server_name,
  endpoint_transport,
}
use virtual_cloud_help_servi.Manifest.KeyPolicy.{validate_key_policy_shape}

abbrev pub max_manifest_life : Duration
max_manifest_life = hour

abbrev pub allowed_clock_skew : Duration
allowed_clock_skew = 2 * minute

unfoldable pub id_pattern : Text → Bool
unfolding matches
id_pattern = matches is_lower_alnum is_id_char 62

unfoldable pub region_pattern : Text → Bool
unfolding matches
region_pattern = matches is_lower_alnum is_id_char 63

unfoldable pub country_pattern : Text → Bool
unfolding matches_exactly
country_pattern = matches_exactly is_upper 2

unfoldable pub credential_pattern : Text → Bool
unfolding matches
credential_pattern =
    matches is_alnum (λ c. is_alnum c || (c == b'.' || (c == b'_' || c == b'-'))) 127

-- `parsed` has the https scheme and a host, and no credentials, query or fragment.
unfoldable pub public_https : Url → Bool
public_https parsed =
    text_eq parsed.scheme (bytes "https")
    && not (text_eq parsed.host [])
    && not parsed.has_user
    && text_eq parsed.raw_query []
    && text_eq parsed.fragment []

module _ (p : Platform) where
  unfoldable pub valid_host : Text → Bool
  valid_host host = p.is_ip host || leb (length host) 253 && is_hostname host

  -- The body of the loop of `validateDiscovery`.
  unfoldable pub check_source : List Text → DiscoveryEndpoint → Outcome (Unit {0})
  check_source ids source = do
    reject (not (id_pattern source.id)) discovery_invalid_id
    reject (contains ids source.id) discovery_duplicate_id
    reject (source.priority == 0 || ltb 1000 source.priority) discovery_priority
    parsed ← or_fail (p.parse_request_uri source.url) discovery_url
    reject (not (public_https parsed)) discovery_url
    reject (not (valid_host parsed.hostname)) discovery_host
    reject (not (text_eq parsed.port []) && not (valid_port parsed.port)) discovery_port

  unfoldable pub check_sources : List Text → List DiscoveryEndpoint → Outcome (Unit {0})
  check_sources ids [] = ok tt
  check_sources ids (source ∷ sources) = do
    check_source ids source
    check_sources (source.id ∷ ids) sources

  unfoldable pub validate_discovery : List DiscoveryEndpoint → Outcome (Unit {0})
  validate_discovery discovery = do
    reject (length discovery == 0 || ltb 16 (length discovery)) discovery_count
    check_sources [] discovery

  -- The `switch` on the transport.
  unfoldable pub check_transport : Endpoint → Outcome (Unit {0})
  check_transport endpoint =
      if text_eq endpoint.transport transport_amneziawg
      then reject (not (text_eq endpoint.server_name [])) endpoint_server_name
      else if text_eq endpoint.transport transport_reality
      then reject
          (ltb 253 (length endpoint.server_name)
            || p.is_ip endpoint.server_name
            || not (is_hostname endpoint.server_name))
          endpoint_server_name
      else err endpoint_transport

  unfoldable pub validate_endpoint : Endpoint → Outcome (Unit {0})
  validate_endpoint endpoint = do
    reject (not (id_pattern endpoint.id)) endpoint_invalid_id
    (host, port_text) ← or_fail (p.split_host_port endpoint.address) endpoint_address
    reject (not (valid_host host)) endpoint_address
    reject (not (valid_port port_text)) endpoint_port
    reject (not (credential_pattern endpoint.credential_ref)) endpoint_credential
    reject (endpoint.priority == 0 || ltb 1000 endpoint.priority) endpoint_priority
    check_transport endpoint

  -- The inner loop over one node's endpoints: it returns the endpoint ids seen so far.
  unfoldable pub check_endpoints : List Text → List Endpoint → Outcome (List Text)
  check_endpoints endpoint_ids [] = ok endpoint_ids
  check_endpoints endpoint_ids (endpoint ∷ endpoints) = do
    validate_endpoint endpoint
    reject (contains endpoint_ids endpoint.id) endpoint_duplicate_id
    check_endpoints (endpoint.id ∷ endpoint_ids) endpoints

  -- The tests on a node before its endpoints.
  unfoldable pub check_node : List Text → Node → Outcome (Unit {0})
  check_node node_ids node = do
    reject (not (id_pattern node.id)) node_invalid_id
    reject (contains node_ids node.id) node_duplicate_id
    reject (not (region_pattern node.region)) node_region
    reject (not (country_pattern node.country_code)) node_country
    reject (not (id_pattern node.provider)) node_provider
    reject (node.asn == 0) node_asn
    reject (length node.endpoints == 0 || ltb 16 (length node.endpoints)) node_endpoint_count

  -- The outer loop of `validateCatalogContents`.
  unfoldable pub check_nodes : List Text → List Text → List Node → Outcome (Unit {0})
  check_nodes node_ids endpoint_ids [] = ok tt
  check_nodes node_ids endpoint_ids (node ∷ nodes) = do
    check_node node_ids node
    seen ← check_endpoints endpoint_ids node.endpoints
    check_nodes (node.id ∷ node_ids) seen nodes

  unfoldable pub validate_catalog_contents : List DiscoveryEndpoint → List Node → Outcome (Unit {0})
  validate_catalog_contents discovery nodes = do
    validate_discovery discovery
    reject (length nodes == 0 || ltb 1000 (length nodes)) node_count
    check_nodes [] [] nodes

  unfoldable pub validate : Document → Outcome (Unit {0})
  validate document = do
    reject (not (document.schema_version == schema_version)) unsupported_schema
    reject (document.version == 0) document_version_zero
    reject (document.catalog_revision == 0) catalog_revision_zero
    reject (is_zero document.issued_at || is_zero document.expires_at) times_required
    reject (not (before document.issued_at document.expires_at)) expiry_not_after_issuance
    reject (ltb max_manifest_life (elapsed document.expires_at document.issued_at))
        lifetime_too_long
    reject (text_eq document.key_policy.signature []) policy_unsigned
    validate_key_policy_shape p document.key_policy
    validate_catalog_contents document.discovery document.nodes
