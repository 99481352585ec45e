-- ===== src/Tests/Choosing.antt =====
-- Fetching a manifest, ranking its endpoints, and the delays after failures, at small examples.
use virtual_cloud_help_servi.Prelude.{
  ℕ, ◌*◌, ◌^◌, ◌≡◌, ◌≤◌, ◌↔◌, refl, min, true, false, some, [], ◌∷◌, arith, ok, if◌then◌else◌, ◌==◌,
}
use virtual_cloud_help_servi.Prelude.Text.{Text, bytes}
use virtual_cloud_help_servi.GoTime.{second, minute, zero_instant}
use virtual_cloud_help_servi.Manifest.Types.{DiscoveryEndpoint}
use virtual_cloud_help_servi.Manifest.Envelope.{decode_envelope}
use virtual_cloud_help_servi.Manifest.Envelope.RoundTrip.{fresh_state}
use virtual_cloud_help_servi.Platform.{Platform}
use virtual_cloud_help_servi.Selector.{
  Options, Observation, Plan, score_of, scan_endpoint, scan_endpoints, scan_nodes, score_less,
  first_within, seen_asn, most_diverse, take_out, pick, rank,
}
use virtual_cloud_help_servi.Selector.Picked.{IsPlan, rank-IsPlan}
use virtual_cloud_help_servi.Selector.Cooldown.{
  failure_dns, failure_handshake, cooldown_bounds, grow, cooldown, cooldown-min, cooldown_monotone,
}
use virtual_cloud_help_servi.Selector.Probe.{ProbeEvidence, probe_healthy, probe_healthy_iff}
use virtual_cloud_help_servi.Discovery.{
  Client, Attempt, FetchResult, validate_source, check_seen, check_response, accept_response,
  fetch_one, give_up, try_sources, fetch,
}
use virtual_cloud_help_servi.Discovery.Fetched.{FromVerify, fetch-Advances}
use virtual_cloud_help_servi.Manifest.Client.History.{Advances}
use virtual_cloud_help_servi.Tests.Toy.{toy_encode, toy_sha256}
use virtual_cloud_help_servi.Tests.Manifests.{
  manifest_run, sample, sample_document, sample_envelope, root_public, key_a, start, grant_of,
}

abbrev options : Options
options = record { udp_available = true; max_candidates = 0 }

abbrev no_observations : Text → Observation
no_observations id = record {
  consecutive_failures = 0;
  cooldown_until = zero_instant;
  last_success = zero_instant;
  transfer_verified = false;
}

abbrev sample_plan : Plan
sample_plan = record {
  candidates =
      record {
        node_id = bytes "fra-1";
        provider = bytes "timeweb";
        asn = 9123;
        endpoint = record {
          id = bytes "fra-1-awg";
          transport = bytes "amneziawg";
          address = bytes "a.example";
          server_name = [];
          credential_ref = bytes "awg.1";
          priority = 10;
        };
      }
      ∷ [];
  retry_at = zero_instant;
}

ranked : rank sample (sample_document 5 start) no_observations start options ≡ ok sample_plan
unfolding manifest_run score_of scan_endpoint scan_endpoints scan_nodes score_less first_within
    seen_asn most_diverse take_out pick rank
ranked = refl

rank-IsPlan_example : IsPlan no_observations start options (sample_document 5 start) sample_plan
rank-IsPlan_example =
    rank-IsPlan no_observations start options sample (sample_document 5 start) {plan = sample_plan}
      ranked

dns_bounds : cooldown_bounds failure_dns ≡ ok (5 * second, 2 * minute)
unfolding cooldown_bounds
dns_bounds = refl

cooldown-min_example : cooldown failure_dns 4 ≡ ok (min (2 * minute) (5 * second * 2 ^ 3))
cooldown-min_example = cooldown-min failure_dns 4 dns_bounds (omega arith)

handshake_2 : cooldown failure_handshake 2 ≡ ok (30 * second)
unfolding cooldown_bounds grow cooldown
handshake_2 = refl

handshake_9 : cooldown failure_handshake 9 ≡ ok (10 * minute)
unfolding cooldown_bounds grow cooldown
handshake_9 = refl

cooldown_monotone_example : 30 * second ≤ 10 * minute
cooldown_monotone_example =
    cooldown_monotone failure_handshake 2 9 (omega arith) handshake_2 handshake_9

abbrev evidence : ProbeEvidence
evidence = record {
  resolved = true;
  allowed_witness_reachable = false;
  endpoint_reachable = true;
  handshake_complete = true;
  protected_dns_resolved = true;
  tunnel_route_confirmed = true;
  uploaded_bytes = 65_536;
  downloaded_bytes = 65_535;
}

probe_healthy_iff_example : (probe_healthy evidence ≡ true) ↔ (
    (evidence.resolved ≡ true)
    × (evidence.endpoint_reachable ≡ true)
    × (evidence.handshake_complete ≡ true)
    × (evidence.protected_dns_resolved ≡ true)
    × (evidence.tunnel_route_confirmed ≡ true)
    × (65_536 ≤ evidence.uploaded_bytes)
    × (65_536 ≤ evidence.downloaded_bytes))
probe_healthy_iff_example = probe_healthy_iff evidence

-- The sample platform with a reader that gives one envelope.
abbrev online : Platform
online = record sample { read_envelope = λ x. some (sample_envelope 5 key_a, []) }

abbrev client : Client
client = record {
  root_key = root_public;
  max_attempts = 0;
  attempt_timeout = 0;
  overall_timeout = 0;
}

abbrev mirror : Text → ℕ → DiscoveryEndpoint
mirror id priority = record { id = id; url = bytes "https://a.example/"; priority = priority }

-- The first mirror answers 500, the second the envelope.
abbrev attempts : ℕ → Attempt
attempts index = record {
  remaining = 60 * second;
  now = start;
  answer = λ url. some (record {
    scheme = bytes "https";
    same_host = true;
    status = if index == 0 then 500 else 200;
    is_json = true;
    body = 1 ∷ [];
  });
  expired = false;
}

abbrev fetched : FetchResult
fetched = record {
  document = sample_document 5 start;
  trusted = record {
    version = 5;
    issued_at = start;
    payload_sha256 = toy_encode (toy_sha256 (5 ∷ start ∷ []));
    policy_version = 1;
    policy_sha256 = toy_encode (toy_sha256 (1 ∷ []));
    signing_key_id = (grant_of key_a 1 1 5).key_id;
    signing_key_epoch = 1;
  };
  source_id = bytes "two";
}

fetches :
    fetch online client
      (mirror (bytes "two") 20 ∷ mirror (bytes "one") 10 ∷ [])
      fresh_state
      attempts
    ≡ ok fetched
unfolding manifest_run decode_envelope validate_source check_seen check_response accept_response
    fetch_one give_up try_sources fetch
fetches = refl

fetch-Advances_example :
    FromVerify online root_public fresh_state attempts fetched
    × Advances fresh_state fetched.trusted
fetch-Advances_example =
    fetch-Advances online client (mirror (bytes "two") 20 ∷ mirror (bytes "one") 10 ∷ [])
      fresh_state attempts fetches
