-- ===== src/Manifest/Canonical.antt =====
-- `canonicalDiscovery`, `canonicalNodes` and `CatalogDigest` of internal/manifest/manifest.go.
use virtual_cloud_help_servi.Prelude.{
  Bool, List, map, ltb, ◌==◌, if◌then◌else◌, ok, or_fail, ◌>>=◌, ◌>>◌,
}
use virtual_cloud_help_servi.Prelude.Text.{Text, text_lt}
use virtual_cloud_help_servi.Prelude.Sort.{sort_by}
use virtual_cloud_help_servi.Platform.{Platform}
use virtual_cloud_help_servi.Manifest.Types.{DiscoveryEndpoint, Endpoint, Node, Catalog}
use virtual_cloud_help_servi.Manifest.Fault.{Outcome, payload_encode}
use virtual_cloud_help_servi.Manifest.Validate.{validate_catalog_contents}

unfoldable pub source_less : DiscoveryEndpoint → DiscoveryEndpoint → Bool
source_less a b = if a.priority == b.priority then text_lt a.id b.id else ltb a.priority b.priority

unfoldable pub endpoint_less : Endpoint → Endpoint → Bool
endpoint_less a b =
    if a.priority == b.priority then text_lt a.id b.id else ltb a.priority b.priority

unfoldable pub node_less : Node → Node → Bool
node_less a b = text_lt a.id b.id

unfoldable pub canonical_discovery : List DiscoveryEndpoint → List DiscoveryEndpoint
canonical_discovery discovery = sort_by source_less discovery

unfoldable pub canonical_node : Node → Node
canonical_node node = record node { endpoints = sort_by endpoint_less node.endpoints }

unfoldable pub canonical_nodes : List Node → List Node
unfolding canonical_node
canonical_nodes nodes = sort_by node_less (map canonical_node nodes)

unfoldable pub canonical_catalog : Catalog → Catalog
canonical_catalog catalog = record {
  revision = catalog.revision;
  discovery = canonical_discovery catalog.discovery;
  nodes = canonical_nodes catalog.nodes;
}

-- The document that `CatalogDigest` fills carries only these contents on to the digest.
unfoldable pub catalog_digest : Platform → Catalog → Outcome Text
unfolding canonical_catalog
catalog_digest p catalog = do
  let canonical = canonical_catalog catalog
  validate_catalog_contents p canonical.discovery canonical.nodes
  encoded ← or_fail (p.marshal_catalog canonical) payload_encode
  ok (p.encode64 (p.sha256 encoded))
