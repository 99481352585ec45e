-- ===== src/Issuer/Issue.antt =====
-- Each call of `Issue` keeps the issuer well formed.
use virtual_cloud_help_servi.Prelude.{
  ◌<◌, ◌≤◌, ◌≡◌, inl, inr, refl, Bool-cases, true, false, ◌&&◌, Option, none, some, arith, Result,
  ok, err, if◌then◌else◌, ltb,
}
use virtual_cloud_help_servi.GoTime.{Instant, second, truncate, before}
use virtual_cloud_help_servi.Platform.{Platform}
use virtual_cloud_help_servi.Manifest.Types.{Catalog, Envelope}
use virtual_cloud_help_servi.Issuance.State.{IssuerState, StoreFault}
use virtual_cloud_help_servi.Issuance.FileStore.{Disk, save}
use virtual_cloud_help_servi.Issuance.FileStore.RoundTrip.{save-Replaced}
use virtual_cloud_help_servi.Issuer.{
  IssuerFault, Issuer, Tick, has_cached, persist_state, prepare, persist, refresh, settle, attempt,
  retry, issuer_issue, issuer_closed, clock_backwards,
}
use virtual_cloud_help_servi.Issuer.Invariant.{
  Readable, Inv, Prepared, Durable, Safe, Kept, Step, truncate_idem,
}
use virtual_cloud_help_servi.Issuer.Refresh.{prepare-Prepared, save-Covered, save-Restorable}
use virtual_cloud_help_servi.Issuer.Steps.{
  refused-Step, cached-Step, after_failure-Step, after_success-Step,
}

module _ (p : Platform) (issuer : Issuer) (now : Instant) (tick : Tick) (inv : Inv p issuer)
    (whole : truncate now second ≡ now)
    (clock : 0 < issuer.state.last_version → issuer.state.last_issued_at ≤ now)
    (readable : (c : Catalog) → tick.loaded ≡ ok c → Readable p issuer.config c) where
  attempt-Step : (disk : Disk) → Step p disk issuer now (attempt p disk issuer now tick)
  unfolding attempt refresh persist
  attempt-Step disk = by_prepare (prepare p issuer now tick.loaded) refl
    where
      by_save :
          (envelope : Envelope) (next : IssuerState) (after : Disk)
          (r : Result StoreFault (Unit {0}))
          → Prepared p issuer now tick.loaded envelope next
          → (Safe p disk issuer.state.last_version → Safe p after issuer.state.last_version)
          → Kept p issuer.config disk issuer.state.last_version after issuer.state.last_version
          → (r ≡ ok tt → Durable p after next)
          → Step p disk issuer now (
              settle now (elim r [
                | err fault ↦ (after, issuer, err (persist_state fault))
                | ok done ↦ (after, record issuer { state = next }, ok envelope)
              ]))
      by_save envelope next after (err fault) q c keep d =
          after_failure-Step p issuer now disk after (persist_state fault) inv clock c keep
      by_save envelope next after (ok done) q c keep d =
          after_success-Step p issuer now disk after next tick.loaded envelope inv whole readable q
            (d refl)

      by_prepare :
          (r : Result IssuerFault (Envelope × IssuerState))
          → prepare p issuer now tick.loaded ≡ r
          → Step p disk issuer now (
              settle now (elim r [
                | err fault ↦ (disk, issuer, err fault)
                | ok (envelope, next) ↦ persist p disk issuer tick.calls envelope next
              ]))
      by_prepare (err fault) e =
          after_failure-Step p issuer now disk disk fault inv clock (λ c. c) (λ r c. c)
      by_prepare (ok (envelope, next)) e =
          let s = save p disk tick.calls issuer.config.state_path next in
          by_save envelope next s.0 s.1 (prepare-Prepared p issuer now tick.loaded e)
            (λ c h.
              save-Covered p issuer now tick disk inv.word
                (prepare-Prepared p issuer now tick.loaded e) (c h))
            (save-Restorable p issuer now tick disk inv.word
              (prepare-Prepared p issuer now tick.loaded e))
            (λ h.
              let (contents, written, stored) =
                (save-Replaced p disk tick.calls issuer.config.state_path next).done h in
              record { contents = contents; written = written; stored = stored })

  fallback-Step :
      (disk : Disk) (fault : IssuerFault)
      → Step p disk issuer now (
          if has_cached issuer && before now issuer.valid_until
          then (disk, issuer, ok issuer.cached)
          else (disk, issuer, err fault))
  fallback-Step disk fault = elim inv.backed [
    | inl e ↦
        let no : (has_cached issuer && before now issuer.valid_until) ≡ false = ground arith in
        rw no (refused-Step p issuer now disk fault inv)
    | inr b ↦ elim (Bool-cases (has_cached issuer && before now issuer.valid_until)) [
      | inl e ↦ rw e (cached-Step p issuer now disk inv b clock (ground arith))
      | inr e ↦ rw e (refused-Step p issuer now disk fault inv)
    ]
  ]

  retry-Step :
      (disk : Disk) (last : Option IssuerFault)
      → Step p disk issuer now (retry p disk issuer now tick last)
  unfolding retry
  retry-Step disk none = attempt-Step disk
  retry-Step disk (some fault) = elim (Bool-cases (before now issuer.retry_at)) [
    | inl e ↦ rw e (fallback-Step disk fault)
    | inr e ↦ rw e (attempt-Step disk)
  ]

  fresh_cache-Step :
      (disk : Disk)
      → (has_cached issuer && before now issuer.cache_until) ≡ true
      → Step p disk issuer now (disk, issuer, ok issuer.cached)
  fresh_cache-Step disk h = elim inv.backed [
    | inl e ↦ absurd (ground arith)
    | inr b ↦
        let alive : now < issuer.valid_until = ground (arith, b.cache) in
        cached-Step p issuer now disk inv b clock alive
  ]

module _ (p : Platform) where
  pub issuer_issue-Step :
      (disk : Disk) (issuer : Issuer) (tick : Tick)
      → Inv p issuer
      → ((c : Catalog) → tick.loaded ≡ ok c → Readable p issuer.config c)
      → Step p disk issuer (truncate tick.now second) (issuer_issue p disk issuer tick)
  unfolding issuer_issue
  issuer_issue-Step disk issuer tick inv readable =
      let now = truncate tick.now second in
      elim (Bool-cases issuer.closed) [
        | inl e ↦ simp e (refused-Step p issuer now disk issuer_closed inv)
        | inr running ↦
            elim (Bool-cases
              (ltb 0 issuer.state.last_version && before now issuer.state.last_issued_at)) [
                | inl e ↦ simp (running, e) (refused-Step p issuer now disk clock_backwards inv)
                | inr on_time ↦
                    let clock : 0 < issuer.state.last_version → issuer.state.last_issued_at ≤ now =
                      λ h. ground arith in
                    elim (Bool-cases (has_cached issuer && before now issuer.cache_until)) [
                      | inl e ↦
                          simp (running, on_time, e)
                            (fresh_cache-Step p issuer now tick inv (truncate_idem tick.now) clock
                              readable disk e)
                      | inr e ↦
                          simp (running, on_time, e)
                            (retry-Step p issuer now tick inv (truncate_idem tick.now) clock
                              readable disk issuer.last_error)
                    ]
              ]
      ]
