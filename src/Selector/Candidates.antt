-- ===== src/Selector/Candidates.antt =====
-- The candidates that the two scanning loops of `Rank` of internal/selector/selector.go collect, by
-- what the document holds.
use virtual_cloud_help_servi.Prelude.{
  ◌≡◌, ◌∙◌, ap, refl, Bool, true, false, not, ◌&&◌, ◌||◌, sym, List, [], ◌∷◌, ◌++◌, map,
  if◌then◌else◌,
}
use virtual_cloud_help_servi.Prelude.Text.{Text, bytes, text_eq}
use virtual_cloud_help_servi.GoTime.{Instant, is_zero, before}
use virtual_cloud_help_servi.Manifest.Types.{Endpoint, Node, transport_amneziawg}
use virtual_cloud_help_servi.Selector.{
  Options, Observation, ScoredCandidate, Scanned, score_of, scan_endpoint, scan_endpoints,
  scan_nodes,
}

append_nil : {A : Type 0} (xs : List A) → xs ++ [] ≡ xs
append_nil [] = refl
append_nil {A} (x ∷ xs) = ap (λ (r : List A). x ∷ r) (append_nil xs)

append_assoc : {A : Type 0} (xs ys zs : List A) → (xs ++ ys) ++ zs ≡ xs ++ (ys ++ zs)
append_assoc [] ys zs = refl
append_assoc {A} (x ∷ xs) ys zs = ap (λ (r : List A). x ∷ r) (append_assoc xs ys zs)

module _ (observations : Text → Observation) (now : Instant) (options : Options) where
  -- The candidates of a document by its contents: of each node, its endpoints that need no UDP
  -- where there is none and are not cooling down.
  abbrev pub usable : Endpoint → Bool
  usable endpoint =
      not (text_eq endpoint.transport (bytes "amneziawg") && not options.udp_available)
      && not (before now (observations endpoint.id).cooldown_until)

  unfoldable pub usable_among : List Endpoint → List Endpoint
  usable_among [] = []
  usable_among (endpoint ∷ rest) =
      if usable endpoint then endpoint ∷ usable_among rest else usable_among rest

  abbrev pub candidate_of : Node → Endpoint → ScoredCandidate
  candidate_of node endpoint = record {
    candidate = record {
      node_id = node.id;
      provider = node.provider;
      asn = node.asn;
      endpoint = endpoint;
    };
    score = score_of endpoint (observations endpoint.id);
  }

  unfoldable pub candidates_in : List Node → List ScoredCandidate
  unfolding usable_among
  candidates_in [] = []
  candidates_in (node ∷ rest) =
      map (candidate_of node) (usable_among node.endpoints) ++ candidates_in rest

  scan_endpoint-active :
      (node : Node) (endpoint : Endpoint) (scanned : Scanned)
      → (scan_endpoint observations now options node endpoint scanned).active
        ≡ scanned.active ++ (if usable endpoint then candidate_of node endpoint ∷ [] else [])
  unfolding scan_endpoint
  scan_endpoint-active node endpoint scanned =
      by_tests (text_eq endpoint.transport transport_amneziawg && not options.udp_available)
        (before now until) (is_zero scanned.retry_at || before until scanned.retry_at)
    where
      until : Instant
      until = (observations endpoint.id).cooldown_until

      by_tests :
          (no_udp cooling first : Bool)
          → (let out : Scanned =
                if no_udp
                then scanned
                else if cooling
                then (if first then record scanned { retry_at = until } else scanned)
                else record scanned {
                  active = scanned.active ++ candidate_of node endpoint ∷ [];
                } in
              out.active)
            ≡ scanned.active
              ++ (if not no_udp && not cooling then candidate_of node endpoint ∷ [] else [])
      by_tests true cooling first = sym (append_nil scanned.active)
      by_tests false true true = sym (append_nil scanned.active)
      by_tests false true false = sym (append_nil scanned.active)
      by_tests false false first = refl

  scan_endpoints-active :
      (node : Node) (endpoints : List Endpoint) (scanned : Scanned)
      → (scan_endpoints observations now options node endpoints scanned).active
        ≡ scanned.active ++ map (candidate_of node) (usable_among endpoints)
  unfolding scan_endpoints usable_among
  scan_endpoints-active node [] scanned = sym (append_nil scanned.active)
  scan_endpoints-active node (endpoint ∷ rest) scanned =
      scan_endpoints-active node rest (scan_endpoint observations now options node endpoint scanned)
      ∙ ap (λ (xs : List ScoredCandidate). xs ++ map (candidate_of node) (usable_among rest))
          (scan_endpoint-active node endpoint scanned)
      ∙ by_use (usable endpoint)
    where
      by_use :
          (use_it : Bool)
          → (scanned.active ++ (if use_it then candidate_of node endpoint ∷ [] else []))
              ++ map (candidate_of node) (usable_among rest)
            ≡ scanned.active
              ++ map
                  (candidate_of node)
                  (if use_it then endpoint ∷ usable_among rest else usable_among rest)
      by_use true = append_assoc scanned.active (candidate_of node endpoint ∷ []) _
      by_use false = append_assoc scanned.active [] _

  -- What the scan of internal/selector/selector.go collects.
  pub scan_nodes-active :
      (nodes : List Node) (scanned : Scanned)
      → (scan_nodes observations now options nodes scanned).active
        ≡ scanned.active ++ candidates_in nodes
  unfolding scan_nodes candidates_in
  scan_nodes-active [] scanned = sym (append_nil scanned.active)
  scan_nodes-active (node ∷ rest) scanned =
      scan_nodes-active rest (scan_endpoints observations now options node node.endpoints scanned)
      ∙ ap (λ (xs : List ScoredCandidate). xs ++ candidates_in rest)
          (scan_endpoints-active node node.endpoints scanned)
      ∙ append_assoc scanned.active (map (candidate_of node) (usable_among node.endpoints)) _
