-- ===== src/Discovery.antt =====
-- internal/discovery/client.go: fetching a signed manifest from mirrors, one after the other. What
-- a mirror answers, how long it takes and what the clock says are inputs.
pub mod Fetched
use virtual_cloud_help_servi.Prelude.{
  ℕ, ◌+◌, ◌-◌, ◌*◌, ◌/◌, min, Bool, true, false, not, ◌&&◌, ◌||◌, Option, none, some, List, [], ◌∷◌,
  ltb, leb, ◌==◌, length, take, ◌++◌, if◌then◌else◌, Result, ok, err, reject, wrap, or_fail, ◌>>=◌,
  ◌>>◌,
}
use virtual_cloud_help_servi.Prelude.Text.{Text, bytes, text_eq, text_lt, contains}
use virtual_cloud_help_servi.Prelude.Sort.{sort_by}
use virtual_cloud_help_servi.GoTime.{Instant, Duration, second, minute}
use virtual_cloud_help_servi.Platform.{Platform, Url}
use virtual_cloud_help_servi.Patterns.{matches}
use virtual_cloud_help_servi.Manifest.Types.{DiscoveryEndpoint, Document, Envelope, TrustedState}
use virtual_cloud_help_servi.Manifest.Fault.{Fault}
use virtual_cloud_help_servi.Manifest.Canonical.{source_less}
use virtual_cloud_help_servi.Manifest.Validate.{id_pattern, public_https}
use virtual_cloud_help_servi.Manifest.Envelope.{decode_envelope, verify}

abbrev pub default_attempt_timeout : Duration
default_attempt_timeout = 12 * second

abbrev pub default_overall_timeout : Duration
default_overall_timeout = 60 * second

pub data AttemptFault : Type 0 where
  source_invalid request_failed origin_changed unexpected_status unexpected_type : AttemptFault
  envelope_refused manifest_refused : Fault → AttemptFault

pub data FetchFault : Type 0 where
  root_key_required sources_range max_attempts_range attempt_timeout_range : FetchFault
  overall_timeout_range invalid_source_id source_priority duplicate_source : FetchFault
  source_url : AttemptFault → FetchFault
  no_sources : FetchFault
  all_failed : List (Text × AttemptFault) → FetchFault

-- The settings of `Client`; 0 stands for the default. A negative number of attempts is refused as
-- 17 is, and a negative timeout as 1 nanosecond is.
pub record Client : Type 0 where
  pub root_key : Text
  pub max_attempts : ℕ
  pub attempt_timeout : Duration
  pub overall_timeout : Duration

-- A response: where it came from, what `strings.EqualFold` says of its host and of its media type,
-- its status and its body.
pub record Response : Type 0 where
  pub scheme : Text
  pub same_host : Bool
  pub status : ℕ
  pub is_json : Bool
  pub body : Text

-- What the surroundings give to one attempt: the time left before the overall deadline, the clock,
-- the response or none where the request fails, and whether the deadline has passed after it.
pub record Attempt : Type 0 where
  pub remaining : Duration
  pub now : Instant
  pub answer : Url → Option Response
  pub expired : Bool

pub record FetchResult : Type 0 where
  pub document : Document
  pub trusted : TrustedState
  pub source_id : Text

module _ (p : Platform) where
  unfoldable pub validate_source : DiscoveryEndpoint → Result AttemptFault Url
  validate_source source = do
    parsed ← or_fail (p.parse_request_uri source.url) source_invalid
    reject (not (public_https parsed)) source_invalid
    ok parsed

  unfoldable pub check_seen : List Text → List DiscoveryEndpoint → Result FetchFault (Unit {0})
  check_seen seen [] = ok tt
  check_seen seen (source ∷ rest) = do
    reject (not (id_pattern source.id)) invalid_source_id
    reject (source.priority == 0 || ltb 1000 source.priority) source_priority
    reject (contains seen source.id) duplicate_source
    parsed ← wrap source_url (validate_source source)
    check_seen (source.id ∷ seen) rest

  unfoldable pub check_response : Response → Result AttemptFault (Unit {0})
  check_response response = do
    reject (not (text_eq response.scheme (bytes "https")) || not response.same_host) origin_changed
    reject (not (response.status == 200)) unexpected_status
    reject (not response.is_json) unexpected_type

  -- The part of `fetchOne` after the request.
  unfoldable pub accept_response :
      Text → Instant → TrustedState → Response → Result AttemptFault (Document × TrustedState)
  accept_response root_key now trusted response = do
    check_response response
    envelope ← wrap envelope_refused (decode_envelope p response.body)
    wrap manifest_refused (verify p envelope root_key now trusted)

  unfoldable pub fetch_one :
      Text
      → Attempt
      → DiscoveryEndpoint
      → TrustedState
      → Result AttemptFault (Document × TrustedState)
  unfolding accept_response
  fetch_one root_key attempt source trusted = do
    parsed ← validate_source source
    response ← or_fail (attempt.answer parsed) request_failed
    accept_response root_key attempt.now trusted response

-- The errors of the attempts, joined.
unfoldable pub give_up : List (Text × AttemptFault) → Result FetchFault FetchResult
give_up [] = err no_sources
give_up (failure ∷ failures) = err (all_failed (failure ∷ failures))

-- The fair share of the time left, at most the attempt's timeout.
abbrev pub attempt_budget : Duration → Duration → ℕ → Duration
attempt_budget attempt_timeout remaining sources =
    let fair_share = remaining / sources in
    if ltb fair_share attempt_timeout then fair_share else attempt_timeout

module _ (p : Platform) (root_key : Text) (trusted : TrustedState) (attempt_timeout : Duration)
    (attempts : ℕ → Attempt) where
  -- The loop over the sources in order; `attempts index` is what the attempt at `index` meets.
  unfoldable pub try_sources :
      ℕ → List DiscoveryEndpoint → List (Text × AttemptFault) → Result FetchFault FetchResult
  unfolding give_up
  try_sources index [] failures = give_up failures
  try_sources index (source ∷ rest) failures =
      let attempt = attempts index in
      if attempt_budget attempt_timeout attempt.remaining (length (source ∷ rest)) == 0
      then give_up failures
      else elim (fetch_one p root_key attempt source trusted) [
        | ok (document, next) ↦
            ok (record { document = document; trusted = next; source_id = source.id })
        | err fault ↦
            let failed = failures ++ (source.id, fault) ∷ [] in
            elim attempt.expired [
              | true ↦ give_up failed
              | false ↦ try_sources (index + 1) rest failed
            ]
      ]

-- `value`, or the default where it is 0.
abbrev pub or_default : ℕ → ℕ → ℕ
or_default value default = if value == 0 then default else value

unfoldable pub fetch :
    Platform
    → Client
    → List DiscoveryEndpoint
    → TrustedState
    → (ℕ → Attempt)
    → Result FetchFault FetchResult
fetch p client sources trusted attempts = do
  reject (not (length client.root_key == 32)) root_key_required
  reject (length sources == 0 || ltb 16 (length sources)) sources_range
  let max_attempts = or_default client.max_attempts (length sources)
  reject (ltb max_attempts 1 || ltb 16 max_attempts) max_attempts_range
  let attempt_timeout = or_default client.attempt_timeout default_attempt_timeout
  reject (ltb attempt_timeout second || ltb (30 * second) attempt_timeout) attempt_timeout_range
  let overall_timeout = or_default client.overall_timeout default_overall_timeout
  reject (ltb overall_timeout (5 * second) || ltb (5 * minute) overall_timeout)
      overall_timeout_range
  check_seen p [] sources
  let ordered = take max_attempts (sort_by source_less sources)
  try_sources p client.root_key trusted attempt_timeout attempts 0 ordered []
