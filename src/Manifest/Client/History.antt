-- ===== src/Manifest/Client/History.antt =====
-- Along any sequence of envelopes the client's state only advances, and no version is accepted
-- with two payloads.
use virtual_cloud_help_servi.Prelude.{
  ◌<◌, ◌≤◌, ◌≡◌, ◌∙◌, sym, refl, ap, some, List, [], ◌∷◌, ok, err, arith, ◌==◌, if◌then◌else◌,
  Result,
}
use virtual_cloud_help_servi.Prelude.Text.{Text, text_eq_iff}
use virtual_cloud_help_servi.GoTime.{Instant}
use virtual_cloud_help_servi.Platform.{Platform}
use virtual_cloud_help_servi.Manifest.Types.{Document, Envelope, TrustedState}
use virtual_cloud_help_servi.Manifest.Fault.{Fault}
use virtual_cloud_help_servi.Manifest.Validate.{validate}
use virtual_cloud_help_servi.Manifest.Transition.{validate_state_transition}
use virtual_cloud_help_servi.Manifest.Envelope.{candidate_state, verify}
use virtual_cloud_help_servi.Manifest.Client.{kept, client_run}
use virtual_cloud_help_servi.Manifest.Client.Verified.{Verified, verify-Verified}

-- `t` is a later state than `s`, or the same.
pub record Advances (s t : TrustedState) : Type 0 where
  pub version : s.version ≤ t.version
  pub policy : s.policy_version ≤ t.policy_version
  pub epoch : s.signing_key_epoch ≤ t.signing_key_epoch
  pub issued : 0 < s.version → s.issued_at ≤ t.issued_at
  pub same : s.version ≡ t.version → s ≡ t

Advances-refl : (s : TrustedState) → Advances s s
Advances-refl s = record {
  version = omega arith;
  policy = omega arith;
  epoch = omega arith;
  issued = λ h. omega arith;
  same = λ e. refl;
}

Advances-trans : {s t u : TrustedState} → Advances s t → Advances t u → Advances s u
Advances-trans a b = record {
  version = omega arith;
  policy = omega arith;
  epoch = omega arith;
  issued = λ h. omega (arith, a.issued h, b.issued (omega arith));
  same = λ e. a.same (omega arith) ∙ b.same (omega arith);
}

module _ (p : Platform) where
  document_version-pos : (document : Document) → validate p document ≡ ok tt → 0 < document.version
  unfolding validate
  document_version-pos document h = ground arith

  transition-Advances :
      (s c : TrustedState)
      → 0 < c.version
      → validate_state_transition p s c ≡ ok tt
      → Advances s (if s.version == c.version then s else c)
  unfolding validate_state_transition
  transition-Advances s c pos h = record {
    version = ground arith;
    policy = ground arith;
    epoch = ground arith;
    issued = λ q. ground arith;
    same = λ e. ground arith;
  }

  -- The state that an acceptance leaves holds the document's version and its payload's digest.
  record Holds (document : Document) (payload : Text) (t : TrustedState) : Type 0 where
    version_is : t.version ≡ document.version
    payload_is : t.payload_sha256 ≡ p.encode64 (p.sha256 payload)

  transition-payload :
      (s c : TrustedState)
      → 0 < c.version
      → validate_state_transition p s c ≡ ok tt
      → ((if s.version == c.version then s else c).version ≡ c.version)
        × ((if s.version == c.version then s else c).payload_sha256 ≡ c.payload_sha256)
  unfolding validate_state_transition
  transition-payload s c pos h = ground (arith, text_eq_iff c.payload_sha256 s.payload_sha256)

  module _ {envelope : Envelope} {root : Text} {now : Instant} {s t : TrustedState}
      {document : Document} (v : Verified p envelope root now s document t) where
    pub Verified-Advances : Advances s t
    unfolding candidate_state
    Verified-Advances = rw v.next_is (
        transition-Advances s (candidate_state p document v.payload v.digest v.grant)
          (document_version-pos document v.valid) v.passed)

    Verified-Holds : Holds document v.payload t
    unfolding candidate_state
    Verified-Holds =
        let (a, b) =
          transition-payload s (candidate_state p document v.payload v.digest v.grant)
            (document_version-pos document v.valid) v.passed in
        rw v.next_is (record { version_is = a; payload_is = b })

  kept-Advances :
      (envelope : Envelope) (root : Text) (now : Instant) (s : TrustedState)
      (r : Result Fault (Document × TrustedState))
      → verify p envelope root now s ≡ r
      → Advances s (kept s r)
  kept-Advances envelope root now s (ok (document, next)) e =
      Verified-Advances
        (verify-Verified p envelope root now s {document = document} {next = next} e)
  kept-Advances envelope root now s (err fault) e = Advances-refl s

  -- Whatever envelopes arrive, the client's version, policy version and key epoch never decrease,
  -- nor, once it has accepted a manifest, its issuance time; and at one version its state is one.
  pub client_run-Advances :
      (root : Text) (s : TrustedState) (arrivals : List (Envelope × Instant))
      → Advances s (client_run p root s arrivals)
  unfolding client_run
  client_run-Advances root s [] = Advances-refl s
  client_run-Advances root s ((envelope, now) ∷ rest) =
      Advances-trans (kept-Advances envelope root now s (verify p envelope root now s) refl)
        (client_run-Advances root (kept s (verify p envelope root now s)) rest)

  -- Two accepted manifests of one version carry payloads of one digest, whatever arrives between.
  pub no_equivocation :
      (root : Text) (s t t' : TrustedState) (first second : Envelope) (now later : Instant)
      (arrivals : List (Envelope × Instant)) (d d' : Document)
      → verify p first root now s ≡ ok (d, t)
      → verify p second root later (client_run p root t arrivals) ≡ ok (d', t')
      → d.version ≡ d'.version
      → (x y : Text) × (p.decode64 first.payload ≡ some x)
        × (p.decode64 second.payload ≡ some y)
        × (p.encode64 (p.sha256 x) ≡ p.encode64 (p.sha256 y))
  no_equivocation root s t t' first second now later arrivals d d' a b same =
      let v = verify-Verified p first root now s {document = d} {next = t} a in
      let w =
        verify-Verified p second root later (client_run p root t arrivals) {document = d'}
          {next = t'} b in
      let h = Verified-Holds v in
      let k = Verified-Holds w in
      let steps = Advances-trans (client_run-Advances root t arrivals) (Verified-Advances w) in
      let one : t ≡ t' = steps.same (h.version_is ∙ same ∙ sym k.version_is) in
      (
        v.payload,
        w.payload,
        v.decoded,
        w.decoded,
        sym h.payload_is ∙ ap (λ (x : TrustedState). x.payload_sha256) one ∙ k.payload_is,
      )
