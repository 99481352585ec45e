-- ===== src/Discovery/Fetched.antt =====
-- What a client's state is after a fetch.
use virtual_cloud_help_servi.Prelude.{
  ℕ, ◌+◌, ◌≡◌, Bool, Bool-cases, Option, none, or_fail, ◌>>=◌, inl, inr, true, false, some, List,
  [], ◌∷◌, ◌++◌, length, take, ◌==◌, Result, ok, err, arith, refl,
}
use virtual_cloud_help_servi.Prelude.Text.{Text}
use virtual_cloud_help_servi.GoTime.{Instant, Duration}
use virtual_cloud_help_servi.Platform.{Platform, Url}
use virtual_cloud_help_servi.Manifest.Types.{DiscoveryEndpoint, Document, Envelope, TrustedState}
use virtual_cloud_help_servi.Prelude.Sort.{sort_by}
use virtual_cloud_help_servi.Manifest.Canonical.{source_less}
use virtual_cloud_help_servi.Manifest.Envelope.{decode_envelope, verify}
use virtual_cloud_help_servi.Manifest.Client.Verified.{verify-Verified}
use virtual_cloud_help_servi.Manifest.Client.History.{Advances, Verified-Advances}
use virtual_cloud_help_servi.Discovery.{
  AttemptFault, Client, Response, Attempt, FetchResult, validate_source, request_failed,
  accept_response, fetch_one, give_up, attempt_budget, try_sources, fetch, or_default,
  default_attempt_timeout,
}

module _ (p : Platform) where
  -- The result is what `Verify` made of an envelope that an attempt's response held.
  pub record FromVerify (root_key : Text) (trusted : TrustedState) (attempts : ℕ → Attempt)
      (r : FetchResult) : Type 0 where
    pub index : ℕ
    pub envelope : Envelope
    pub verified :
        verify p envelope root_key (attempts index).now trusted ≡ ok (r.document, r.trusted)

  accept_response-verify :
      (root_key : Text) (now : Instant) (trusted : TrustedState) (response : Response)
      {r : Document × TrustedState}
      → accept_response p root_key now trusted response ≡ ok r
      → (envelope : Envelope) × (verify p envelope root_key now trusted ≡ ok r)
  unfolding accept_response
  accept_response-verify root_key now trusted response {r} h =
      let opened : (envelope : Envelope) × (decode_envelope p response.body ≡ ok envelope) =
        ground arith in
      (opened.0, ground (arith, opened.1))

  fetch_one-verify :
      (root_key : Text) (attempt : Attempt) (source : DiscoveryEndpoint) (trusted : TrustedState)
      {r : Document × TrustedState}
      → fetch_one p root_key attempt source trusted ≡ ok r
      → (envelope : Envelope) × (verify p envelope root_key attempt.now trusted ≡ ok r)
  unfolding fetch_one
  fetch_one-verify root_key attempt source trusted {r} h = by_url (validate_source p source) h
    where
      by_answer :
          (answer : Option Response)
          → ((or_fail answer request_failed >>= accept_response p root_key attempt.now trusted)
              ≡ ok r)
          → (envelope : Envelope) × (verify p envelope root_key attempt.now trusted ≡ ok r)
      by_answer none k = absurd (ground arith)
      by_answer (some response) k =
          accept_response-verify root_key attempt.now trusted response {r = r} k

      by_url :
          (url : Result AttemptFault Url)
          → ((url >>= λ parsed.
                or_fail (attempt.answer parsed) request_failed
                >>= accept_response p root_key attempt.now trusted)
              ≡ ok r)
          → (envelope : Envelope) × (verify p envelope root_key attempt.now trusted ≡ ok r)
      by_url (err fault) k = absurd (ground arith)
      by_url (ok parsed) k = by_answer (attempt.answer parsed) k

  give_up-never :
      (failures : List (Text × AttemptFault)) {r : FetchResult} → give_up failures ≡ ok r → ⊥
  unfolding give_up
  give_up-never [] h = absurd (ground arith)
  give_up-never (f ∷ fs) h = absurd (ground arith)

  try_sources-FromVerify :
      (root_key : Text) (trusted : TrustedState) (attempt_timeout : Duration)
      (attempts : ℕ → Attempt) (index : ℕ) (sources : List DiscoveryEndpoint)
      (failures : List (Text × AttemptFault)) {r : FetchResult}
      → try_sources p root_key trusted attempt_timeout attempts index sources failures ≡ ok r
      → FromVerify root_key trusted attempts r
  unfolding try_sources
  try_sources-FromVerify root_key trusted attempt_timeout attempts index [] failures {r} h =
      absurd (give_up-never failures {r = r} h)
  try_sources-FromVerify root_key trusted attempt_timeout attempts index (source ∷ rest) failures
        {r} h =
      let deeper =
        λ (failed : List (Text × AttemptFault))
            (k : try_sources p root_key trusted attempt_timeout attempts (index + 1) rest failed
              ≡ ok r).
          try_sources-FromVerify root_key trusted attempt_timeout attempts (index + 1) rest failed
            {r = r} k in
      elim (Bool-cases
        (attempt_budget attempt_timeout (attempts index).remaining (length (source ∷ rest)) == 0)) [
          | inl e ↦ absurd (give_up-never failures {r = r} (rw e at h))
          | inr e ↦
              by_attempt deeper (fetch_one p root_key (attempts index) source trusted) refl
                (rw e at h)
        ]
    where
      by_expiry :
          (expired : Bool) (failed : List (Text × AttemptFault))
          → ((try_sources p root_key trusted attempt_timeout attempts (index + 1) rest failed
                ≡ ok r)
              → FromVerify root_key trusted attempts r)
          → ((elim expired [
            | true ↦ give_up failed
            | false ↦
                try_sources p root_key trusted attempt_timeout attempts (index + 1) rest failed
          ])
              ≡ ok r)
          → FromVerify root_key trusted attempts r
      by_expiry true failed deeper k = absurd (give_up-never failed {r = r} k)
      by_expiry false failed deeper k = deeper k

      by_attempt :
          ((failed : List (Text × AttemptFault))
            → (try_sources p root_key trusted attempt_timeout attempts (index + 1) rest failed
                ≡ ok r)
            → FromVerify root_key trusted attempts r)
          → (one : Result AttemptFault (Document × TrustedState))
          → fetch_one p root_key (attempts index) source trusted ≡ one
          → ((elim one [
            | ok (document, next) ↦
                ok (record { document = document; trusted = next; source_id = source.id })
            | err fault ↦
                let failed = failures ++ (source.id, fault) ∷ [] in
                elim (attempts index).expired [
                  | true ↦ give_up failed
                  | false ↦
                      try_sources p root_key trusted attempt_timeout attempts
                        (index + 1)
                        rest
                        failed
                ]
          ])
              ≡ ok r)
          → FromVerify root_key trusted attempts r
      by_attempt deeper (ok (document, next)) e k =
          let (envelope, verified) =
            fetch_one-verify root_key (attempts index) source trusted {r = (document, next)} e in
          record { index = index; envelope = envelope; verified = ground (arith, verified) }
      by_attempt deeper (err fault) e k =
          let failed = failures ++ (source.id, fault) ∷ [] in
          by_expiry (attempts index).expired failed (deeper failed) k

  -- Whatever the mirrors answer, a fetch that succeeds returns what `Verify` made of some envelope
  -- and the caller's state; so the returned state has no older version, policy or key epoch.
  pub fetch-Advances :
      (client : Client) (sources : List DiscoveryEndpoint) (trusted : TrustedState)
      (attempts : ℕ → Attempt) {r : FetchResult}
      → fetch p client sources trusted attempts ≡ ok r
      → FromVerify client.root_key trusted attempts r × Advances trusted r.trusted
  unfolding fetch
  fetch-Advances client sources trusted attempts {r} h =
      let max_attempts = or_default client.max_attempts (length sources) in
      let run : try_sources p client.root_key trusted
            (or_default client.attempt_timeout default_attempt_timeout) attempts 0
            (take max_attempts (sort_by source_less sources)) []
          ≡ ok r =
        ground arith in
      let f =
        try_sources-FromVerify client.root_key trusted
          (or_default client.attempt_timeout default_attempt_timeout) attempts 0
          (take max_attempts (sort_by source_less sources)) [] {r = r} run in
      (
        f,
        Verified-Advances p (
            verify-Verified p f.envelope client.root_key (attempts f.index).now trusted
              {document = r.document} {next = r.trusted} f.verified),
      )
