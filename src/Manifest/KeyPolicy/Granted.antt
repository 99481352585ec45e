-- ===== src/Manifest/KeyPolicy/Granted.antt =====
-- What `ValidateKeyPolicy` and `KeyPolicyGrant` say of what they return.
use virtual_cloud_help_servi.Prelude.{ℕ, ◌<◌, ◌≡◌, ◌∙◌, true, none, some, [], arith, ok, length}
use virtual_cloud_help_servi.Prelude.Text.{Text, text_eq_iff}
use virtual_cloud_help_servi.Platform.{Platform, Laws, encoded_len}
use virtual_cloud_help_servi.Manifest.Types.{KeyGrant, KeyPolicy}
use virtual_cloud_help_servi.Manifest.KeyPolicy.{
  canonical_key_grants, canonical_key_policy, validate_key_policy_shape, key_policy_grant,
  validate_key_policy, key_id_of, grant_key_valid,
}
use virtual_cloud_help_servi.Manifest.KeyPolicy.Find.{find_grant-Found, check_grants-decoded}
use virtual_cloud_help_servi.Manifest.KeyPolicy.Grants.{
  validate_key_policy_shape-Shaped, lookup-canonical,
}

module _ (p : Platform) where
  own_key :
      (g : KeyGrant) {raw : Text}
      → grant_key_valid p g ≡ true
      → p.decode64 g.public_key ≡ some raw
      → key_id_of p raw ≡ g.key_id
  unfolding grant_key_valid
  own_key g {raw} h d = ground (arith, text_eq_iff (key_id_of p raw) g.key_id)

  -- A valid policy grants a key id to a public key of 32 bytes with that id.
  pub granted_key_id :
      (policy : KeyPolicy) (k : Text) (version : ℕ) {g : KeyGrant} {raw : Text}
      → validate_key_policy_shape p policy ≡ ok tt
      → key_policy_grant p policy k version ≡ ok (g, raw)
      → (length raw ≡ 32) × (key_id_of p raw ≡ k)
  unfolding key_policy_grant
  granted_key_id policy k version {g} {raw} valid granted =
      let f = find_grant-Found p policy.keys k version {g = g} {raw = raw} granted in
      let s = validate_key_policy_shape-Shaped p policy valid in
      let v =
        check_grants-decoded p [] none (canonical_key_grants policy.keys) k {g = g} s.checked
          (lookup-canonical p policy k valid ∙ f.at_key) in
      (f.sized, own_key g v.0 f.decoded ∙ f.has_key)

  -- A grant is found under its own key.
  pub granted_grant_key :
      (policy : KeyPolicy) (k : Text) (version : ℕ) {g : KeyGrant} {raw : Text}
      → key_policy_grant p policy k version ≡ ok (g, raw)
      → g.key_id ≡ k
  unfolding key_policy_grant
  granted_grant_key policy k version {g} {raw} h =
      (find_grant-Found p policy.keys k version {g = g} {raw = raw} h).has_key

  pub length-key_id_of : Laws p → (key : Text) → length (key_id_of p key) ≡ encoded_len 32
  unfolding key_id_of
  length-key_id_of laws key =
      omega (arith, laws.length-encode (p.sha256 key), laws.length-sha256 key)

  pub length-key_id_of-pos : Laws p → (key : Text) → 0 < length (key_id_of p key)
  length-key_id_of-pos laws key = omega (arith, length-key_id_of laws key)

  -- A granted key has an epoch.
  pub granted_epoch-pos :
      (policy : KeyPolicy) (k : Text) (version : ℕ) {g : KeyGrant} {raw : Text}
      → validate_key_policy_shape p policy ≡ ok tt
      → key_policy_grant p policy k version ≡ ok (g, raw)
      → 0 < g.epoch
  unfolding key_policy_grant
  granted_epoch-pos policy k version {g} {raw} valid granted =
      let f = find_grant-Found p policy.keys k version {g = g} {raw = raw} granted in
      let s = validate_key_policy_shape-Shaped p policy valid in
      (check_grants-decoded p [] none (canonical_key_grants policy.keys) k {g = g} s.checked
        (lookup-canonical p policy k valid ∙ f.at_key)).1

  -- What a validated policy says of its parts and of its digest.
  pub record PolicyChecked (policy : KeyPolicy) (root digest : Text) : Type 0 where
    pub root_sized : length root ≡ 32
    pub version_pos : 0 < policy.version
    pub shape : validate_key_policy_shape p policy ≡ ok tt
    pub digested : (x : Text) × (digest ≡ p.encode64 (p.sha256 x))

  pub validate_key_policy-PolicyChecked :
      (policy : KeyPolicy) (root : Text) {digest : Text}
      → validate_key_policy p policy root ≡ ok digest
      → PolicyChecked policy root digest
  unfolding validate_key_policy
  validate_key_policy-PolicyChecked policy root h =
      let shape : validate_key_policy_shape p policy ≡ ok tt = ground arith in
      let written : (c : Text) × (p.marshal_policy (canonical_key_policy policy) ≡ some c) =
        ground arith in
      record {
        root_sized = ground arith;
        version_pos = unfold validate_key_policy_shape in ground arith;
        shape = shape;
        digested = (written.0, ground (arith, written.1));
      }
