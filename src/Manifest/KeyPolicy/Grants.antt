-- ===== src/Manifest/KeyPolicy/Grants.antt =====
-- What a valid policy guarantees of `KeyPolicyGrant`: each version has one signing key.
use mathlib.Core.Bool.{false≢true}
use virtual_cloud_help_servi.Prelude.{
  ℕ, ◌≤◌, ◌<◌, ◌≡◌, ◌≢◌, ◌⊎◌, inl, inr, ap, sym, ◌∙◌, true, none, some, List, [], ◌∷◌, arith, ok,
  All, length,
}
use virtual_cloud_help_servi.Prelude.Text.{Text}
use virtual_cloud_help_servi.Prelude.Sort.{sort_by-All}
use virtual_cloud_help_servi.Prelude.Keyed.{lookup_key, lookup_key-sort_by}
use virtual_cloud_help_servi.Platform.{Platform}
use virtual_cloud_help_servi.Manifest.Types.{KeyGrant, KeyPolicy}
use virtual_cloud_help_servi.Manifest.KeyPolicy.{
  grant_key, grant_less, canonical_key_grants, check_grants, ends_open, validate_key_policy_shape,
  key_policy_grant, grant_key_valid, authorizes, follows,
}
use virtual_cloud_help_servi.Manifest.KeyPolicy.Find.{
  find_grant-Found, find_grant-of, check_grants-Round, check_grants-Distinct, check_grants-decoded,
}
use virtual_cloud_help_servi.Manifest.KeyPolicy.Ranges.{
  IsWord, Ranges, holder, check_grants-Ranges, lookup-holder, holder-total, holder_order,
}

module _ (p : Platform) where
  -- What the shape check has established of the canonical grants.
  pub record Shaped (grants : List KeyGrant) : Type 0 where
    pub checked : check_grants p [] none grants ≡ ok tt
    pub open_end : ends_open grants ≡ true

  pub validate_key_policy_shape-Shaped :
      (policy : KeyPolicy)
      → validate_key_policy_shape p policy ≡ ok tt
      → Shaped (canonical_key_grants policy.keys)
  unfolding validate_key_policy_shape
  validate_key_policy_shape-Shaped policy h = ground arith

  Shaped-Ranges : (grants : List KeyGrant) → Shaped grants → All IsWord grants → Ranges 1 1 grants
  Shaped-Ranges [] s w = tt
  Shaped-Ranges (g ∷ gs) s w =
      let r = check_grants-Round p [] none g gs s.checked in
      let first : (g.epoch ≡ 1) × (g.not_before_version ≡ 1) =
        unfold follows in ground (arith, r.linked) in
      rw (first.0, first.1) at
        (check_grants-Ranges p [] none g gs s.checked s.open_end w (omega (arith, first.0)))

  -- In a valid policy a lookup by key does not depend on the order of the grants.
  pub lookup-canonical :
      (policy : KeyPolicy) (k : Text)
      → validate_key_policy_shape p policy ≡ ok tt
      → lookup_key grant_key (canonical_key_grants policy.keys) k
        ≡ lookup_key grant_key policy.keys k
  lookup-canonical policy k h =
      let s = validate_key_policy_shape-Shaped policy h in
      unfold canonical_key_grants in
      lookup_key-sort_by grant_key grant_less policy.keys k
        (check_grants-Distinct p [] none (canonical_key_grants policy.keys) s.checked)

  grant-holder :
      (policy : KeyPolicy) (k : Text) (version : ℕ) {g : KeyGrant} {raw : Text}
      → validate_key_policy_shape p policy ≡ ok tt
      → All IsWord policy.keys
      → key_policy_grant p policy k version ≡ ok (g, raw)
      → (holder (canonical_key_grants policy.keys) version ≡ some g) × (g.key_id ≡ k)
  unfolding key_policy_grant
  grant-holder policy k version {g} {raw} h w found =
      let f = find_grant-Found p policy.keys k version {g = g} {raw = raw} found in
      let s = validate_key_policy_shape-Shaped policy h in
      let w' : All IsWord (canonical_key_grants policy.keys) =
        unfold canonical_key_grants in sort_by-All grant_less IsWord policy.keys w in
      (
        lookup-holder 1 1 (canonical_key_grants policy.keys) k version {g = g} (omega arith)
            (Shaped-Ranges (canonical_key_grants policy.keys) s w')
            (lookup-canonical policy k h ∙ f.at_key) f.in_range,
        f.has_key,
      )

  -- In a valid policy two signing keys that are both granted one version are the same key.
  pub grant_exclusive :
      (policy : KeyPolicy) (j k : Text) (version : ℕ) {g h : KeyGrant} {raw raw' : Text}
      → validate_key_policy_shape p policy ≡ ok tt
      → All IsWord policy.keys
      → key_policy_grant p policy j version ≡ ok (g, raw)
      → key_policy_grant p policy k version ≡ ok (h, raw')
      → j ≡ k
  grant_exclusive policy j k version {g} {h} {raw} {raw'} v w a b =
      let x = grant-holder policy j version {g = g} {raw = raw} v w a in
      let y = grant-holder policy k version {g = h} {raw = raw'} v w b in cc (x.0, x.1, y.0, y.1)

  same_grant :
      (policy : KeyPolicy) (k : Text) (v w : ℕ) {g h : KeyGrant} {raw raw' : Text}
      → key_policy_grant p policy k v ≡ ok (g, raw)
      → key_policy_grant p policy k w ≡ ok (h, raw')
      → g ≡ h
  unfolding key_policy_grant
  same_grant policy k v w {g} {h} {raw} {raw'} a b =
      let x = find_grant-Found p policy.keys k v {g = g} {raw = raw} a in
      let y = find_grant-Found p policy.keys k w {g = h} {raw = raw'} b in cc (x.at_key, y.at_key)

  -- In a valid policy a later version is granted to the same key, in the same epoch, or to another
  -- key in a larger epoch.
  pub grant_epoch_order :
      (policy : KeyPolicy) (j k : Text) (v w : ℕ) {g h : KeyGrant} {raw raw' : Text}
      → validate_key_policy_shape p policy ≡ ok tt
      → All IsWord policy.keys
      → 1 ≤ v
      → v ≤ w
      → key_policy_grant p policy j v ≡ ok (g, raw)
      → key_policy_grant p policy k w ≡ ok (h, raw')
      → ((j ≡ k) × (g.epoch ≡ h.epoch)) ⊎ ((j ≢ k) × (g.epoch < h.epoch))
  grant_epoch_order policy j k v w {g} {h} {raw} {raw'} valid word le lt a b =
      let x = grant-holder policy j v {g = g} {raw = raw} valid word a in
      let y = grant-holder policy k w {g = h} {raw = raw'} valid word b in
      let s = validate_key_policy_shape-Shaped policy valid in
      let grants = canonical_key_grants policy.keys in
      let w' : All IsWord grants =
        unfold canonical_key_grants in sort_by-All grant_less IsWord policy.keys word in
      elim (holder_order 1 1 grants v w {g = g} {h = h} le lt (Shaped-Ranges grants s w') x.0 y.0) [
        | inl e ↦ inl (cc (e, x.1, y.1), cc e)
        | inr e ↦ inr (
          λ q.
              let b' : key_policy_grant p policy j w ≡ ok (h, raw') = rw q b in
              let d =
                ap (λ (t : KeyGrant). t.epoch)
                  (same_grant policy j v w {g = g} {h = h} {raw = raw} {raw' = raw'} a b') in
              omega (arith, d, e),
          e,
        )
      ]

  decoded_key :
      (g : KeyGrant)
      → grant_key_valid p g ≡ true
      → (raw : Text) × (p.decode64 g.public_key ≡ some raw) × (length raw ≡ 32)
  unfolding grant_key_valid
  decoded_key g h = ground arith

  held :
      (gs : List KeyGrant) (version : ℕ)
      → 1 ≤ version
      → Shaped gs
      → All IsWord gs
      → (g : KeyGrant) × (lookup_key grant_key gs g.key_id ≡ some g) × (authorizes g version ≡ true)
  unfolding ends_open
  held [] version le s w = absurd (false≢true s.open_end)
  held (g ∷ gs) version le s w =
      holder-total 1 1 g gs version le (Shaped-Ranges (g ∷ gs) s w)
        (check_grants-Distinct p [] none (g ∷ gs) s.checked)

  -- A valid policy grants every version from 1 on to some signing key.
  pub grant_total :
      (policy : KeyPolicy) (version : ℕ)
      → validate_key_policy_shape p policy ≡ ok tt
      → All IsWord policy.keys
      → 1 ≤ version
      → (g : KeyGrant) × (raw : Text) × (key_policy_grant p policy g.key_id version ≡ ok (g, raw))
  grant_total policy version valid word le =
      let s = validate_key_policy_shape-Shaped policy valid in
      let w' : All IsWord (canonical_key_grants policy.keys) =
        unfold canonical_key_grants in sort_by-All grant_less IsWord policy.keys word in
      let (g, l, a) = held (canonical_key_grants policy.keys) version le s w' in
      let (raw, d, n) =
        decoded_key g
          (check_grants-decoded p [] none (canonical_key_grants policy.keys) g.key_id s.checked
            l).0 in
      (
        g,
        raw,
        unfold key_policy_grant in
            find_grant-of p policy.keys g.key_id version
              (sym (lookup-canonical policy g.key_id valid) ∙ l) a d n,
      )
