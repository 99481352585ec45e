-- ===== src/Selector.antt =====
-- internal/selector: the order in which a client tries the endpoints of a signed document
-- (planner.go: Rank and mostDiverse).
pub mod Cooldown
pub mod Probe
pub mod Candidates
pub mod Picked
use virtual_cloud_help_servi.Prelude.{
  ℕ, zero, suc, ◌+◌, ◌-◌, ◌*◌, Bool, false, not, ◌&&◌, ◌||◌, Option, none, some, List, [], ◌∷◌,
  ◌++◌, ltb, leb, ◌==◌, if◌then◌else◌, Result, ok, err, reject, wrap, ◌>>=◌, ◌>>◌, map,
}
use virtual_cloud_help_servi.Prelude.Text.{Text, text_eq, text_lt, contains}
use virtual_cloud_help_servi.Prelude.Sort.{sort_by}
use virtual_cloud_help_servi.GoTime.{Instant, zero_instant, is_zero, before}
use virtual_cloud_help_servi.Platform.{Platform}
use virtual_cloud_help_servi.Manifest.Types.{Document, Endpoint, Node, transport_amneziawg, u64}
use virtual_cloud_help_servi.Manifest.Fault.{Fault}
use virtual_cloud_help_servi.Manifest.Validate.{validate}

pub data SelectorFault : Type 0 where
  document_refused : Fault → SelectorFault
  max_candidates_range : SelectorFault

abbrev pub default_max_candidates : ℕ
default_max_candidates = 8

-- `max_candidates` is an int; a negative one is refused as 17 is.
pub record Options : Type 0 where
  pub udp_available : Bool
  pub max_candidates : ℕ

pub record Observation : Type 0 where
  pub consecutive_failures : ℕ  -- uint16
  pub cooldown_until : Instant
  pub last_success : Instant
  pub transfer_verified : Bool

pub record Candidate : Type 0 where
  pub node_id : Text
  pub provider : Text
  pub asn : ℕ  -- uint32
  pub endpoint : Endpoint

pub record Plan : Type 0 where
  pub candidates : List Candidate
  pub retry_at : Instant

pub record ScoredCandidate : Type 0 where
  pub candidate : Candidate
  pub score : ℕ  -- uint64

-- The variables `active` and `retryAt` of `Rank`.
pub record Scanned : Type 0 where
  pub active : List ScoredCandidate
  pub retry_at : Instant

unfoldable pub score_of : Endpoint → Observation → ℕ
score_of endpoint observation =
    let score =
      u64 (u64 (endpoint.priority * 1_000) + u64 (observation.consecutive_failures * 100_000)) in
    if observation.transfer_verified && not (is_zero observation.last_success) && leb 100 score
    then score - 100
    else score

-- `observations` is the map; it gives the zero Observation where it holds no key.
module _ (observations : Text → Observation) (now : Instant) (options : Options) where
  -- One turn of the inner loop.
  unfoldable pub scan_endpoint : Node → Endpoint → Scanned → Scanned
  scan_endpoint node endpoint scanned =
      let observation = observations endpoint.id in
      if text_eq endpoint.transport transport_amneziawg && not options.udp_available
      then scanned
      else if before now observation.cooldown_until
      then (if is_zero scanned.retry_at || before observation.cooldown_until scanned.retry_at
          then record scanned { retry_at = observation.cooldown_until }
          else scanned)
      else record scanned {
        active =
            scanned.active
            ++ record {
              candidate = record {
                node_id = node.id;
                provider = node.provider;
                asn = node.asn;
                endpoint = endpoint;
              };
              score = score_of endpoint observation;
            }
              ∷ [];
      }

  unfoldable pub scan_endpoints : Node → List Endpoint → Scanned → Scanned
  scan_endpoints node [] scanned = scanned
  scan_endpoints node (endpoint ∷ rest) scanned =
      scan_endpoints node rest (scan_endpoint node endpoint scanned)

  unfoldable pub scan_nodes : List Node → Scanned → Scanned
  scan_nodes [] scanned = scanned
  scan_nodes (node ∷ rest) scanned = scan_nodes rest (scan_endpoints node node.endpoints scanned)

unfoldable pub score_less : ScoredCandidate → ScoredCandidate → Bool
score_less x y =
    if x.score == y.score
    then text_lt x.candidate.endpoint.id y.candidate.endpoint.id
    else ltb x.score y.score

-- One of the two loops of `mostDiverse`: the index of the first candidate that passes the test,
-- among those before the first score above the maximum.
unfoldable pub first_within : (ScoredCandidate → Bool) → ℕ → ℕ → List ScoredCandidate → Option ℕ
first_within test maximum index [] = none
first_within test maximum index (item ∷ rest) =
    let later = first_within test maximum (suc index) rest in
    if ltb maximum item.score then none else if test item then some index else later

unfoldable pub seen_asn : ℕ → List ℕ → Bool
seen_asn asn [] = false
seen_asn asn (x ∷ xs) = asn == x || seen_asn asn xs

module _ (seen_providers : List Text) (seen_asns : List ℕ) where
  abbrev pub both_new : ScoredCandidate → Bool
  both_new item =
      not (contains seen_providers item.candidate.provider)
      && not (seen_asn item.candidate.asn seen_asns)

  abbrev pub one_new : ScoredCandidate → Bool
  one_new item =
      not (contains seen_providers item.candidate.provider)
      || not (seen_asn item.candidate.asn seen_asns)

  -- `mostDiverse(best :: others)`; `Rank` never calls it with no candidates.
  unfoldable pub most_diverse : ScoredCandidate → List ScoredCandidate → ℕ
  most_diverse best others =
      let maximum = u64 (best.score + 10_000) in
      elim (first_within both_new maximum 0 (best ∷ others)) [
        | some index ↦ index
        | none ↦ elim (first_within one_new maximum 0 (best ∷ others)) [
          | some index ↦ index
          | none ↦ 0
        ]
      ]

-- `active[index]`, and `active` without it. An index past the end gives the last one; the indexes
-- of `most_diverse` are within.
unfoldable pub take_out :
    ℕ → ScoredCandidate → List ScoredCandidate → ScoredCandidate × List ScoredCandidate
take_out zero x xs = (x, xs)
take_out (suc index) x [] = (x, [])
take_out (suc index) x (y ∷ ys) = let (taken, rest) = take_out index y ys in (taken, x ∷ rest)

-- The last loop of `Rank`, with the number of candidates that it may still add.
unfoldable pub pick : ℕ → List ScoredCandidate → List Text → List ℕ → List ScoredCandidate
unfolding most_diverse
pick zero active seen_providers seen_asns = []
pick (suc count) [] seen_providers seen_asns = []
pick (suc count) (x ∷ xs) seen_providers seen_asns =
    let (selected, rest) = take_out (most_diverse seen_providers seen_asns x xs) x xs in
    selected
    ∷ pick count rest (selected.candidate.provider ∷ seen_providers)
        (selected.candidate.asn ∷ seen_asns)

abbrev pub max_candidates_of : Options → ℕ
max_candidates_of options =
    if options.max_candidates == 0 then default_max_candidates else options.max_candidates

unfoldable pub rank :
    Platform → Document → (Text → Observation) → Instant → Options → Result SelectorFault Plan
rank p document observations now options = do
  wrap document_refused (validate p document)
  let max_candidates = max_candidates_of options
  reject (ltb max_candidates 1 || ltb 16 max_candidates) max_candidates_range
  let scanned =
      scan_nodes observations now options document.nodes
        (record { active = []; retry_at = zero_instant })
  let picked = pick max_candidates (sort_by score_less scanned.active) [] []
  ok (record {
    candidates = map (λ (x : ScoredCandidate). x.candidate) picked;
    retry_at = scanned.retry_at;
  })
