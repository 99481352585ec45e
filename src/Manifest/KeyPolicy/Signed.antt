-- ===== src/Manifest/KeyPolicy/Signed.antt =====
-- What `SignKeyPolicy` signs, `ValidateKeyPolicy` accepts.
use virtual_cloud_help_servi.Prelude.{
  ℕ, ◌≡◌, refl, true, some, List, [], arith, ok, length, take, length-drop,
}
use virtual_cloud_help_servi.Prelude.Text.{Text, text_eq_iff, text_eq_refl}
use virtual_cloud_help_servi.Platform.{Platform, Laws, public_of, encoded_len}
use virtual_cloud_help_servi.Manifest.Types.{KeyGrant, KeyPolicy}
use virtual_cloud_help_servi.Manifest.KeyPolicy.{
  valid_private_key, canonical_key_grants, canonical_key_policy, validate_key_policy_shape,
  key_policy_signing_bytes, sign_key_policy, signature_bytes, validate_key_policy, key_id_of,
}

module _ (p : Platform) where
  valid_private_key-lem :
      (key : Text)
      → valid_private_key p key ≡ true
      → (length key ≡ 64) × (p.key_from_seed (take 32 key) ≡ key)
  unfolding valid_private_key
  valid_private_key-lem key h = ground (arith, text_eq_iff (p.key_from_seed (take 32 key)) key)

  -- The policy that `SignKeyPolicy` signs.
  abbrev unsigned : Text → ℕ → List KeyGrant → KeyPolicy
  unsigned key version grants = record {
    version = version;
    root_key_id = key_id_of p (public_of key);
    keys = canonical_key_grants grants;
    signature = [];
  }

  -- A signature of 64 bytes keeps the shape valid.
  signed-shape :
      (key : Text) (version : ℕ) (grants : List KeyGrant) (signature : Text)
      → length signature ≡ encoded_len 64
      → validate_key_policy_shape p (unsigned key version grants) ≡ ok tt
      → validate_key_policy_shape p (record (unsigned key version grants) { signature = signature })
        ≡ ok tt
  unfolding validate_key_policy_shape
  signed-shape key version grants signature sized h = ground arith

  -- Where the platform's laws hold and policies can be written as JSON: a policy that a root key
  -- signs is valid under the key's public half, and holds the grants in their canonical order.
  pub sign_key_policy-validate :
      (laws : Laws p) (key : Text) (version : ℕ) (grants : List KeyGrant) {policy : KeyPolicy}
      → ((q : KeyPolicy) → (text : Text) × (p.marshal_policy q ≡ some text))
      → sign_key_policy p key version grants ≡ ok policy
      → (digest : Text) × (validate_key_policy p policy (public_of key) ≡ ok digest)
        × (policy.version ≡ version)
        × (policy.keys ≡ canonical_key_grants grants)
  unfolding sign_key_policy validate_key_policy signature_bytes
  sign_key_policy-validate laws key version grants {policy} writable h =
      let valid : valid_private_key p key ≡ true = ground arith in
      let (sized, own) = valid_private_key-lem key valid in
      let shape : validate_key_policy_shape p (unsigned key version grants) ≡ ok tt =
        ground arith in
      let written : (payload : Text) × (key_policy_signing_bytes p (unsigned key version grants)
            ≡ ok payload) =
        ground arith in
      let signature = p.encode64 (p.sign key written.0) in
      let is : record (unsigned key version grants) { signature = signature } ≡ policy =
        ground (arith, written.1) in
      let shaped =
        signed-shape key version grants signature
          (omega (arith, laws.length-encode (p.sign key written.0), laws.length-sign key written.0))
          shape in
      let again : key_policy_signing_bytes p
            (record (unsigned key version grants) { signature = signature })
          ≡ ok written.0 =
        unfold key_policy_signing_bytes in written.1 in
      let canonical =
        writable
          (canonical_key_policy (record (unsigned key version grants) { signature = signature })) in
      let root : length (public_of key) ≡ 32 = omega (arith, length-drop 32 key) in
      rw (← is) (
        p.encode64 (p.sha256 canonical.0),
        ground (
          arith,
          root,
          shaped,
          text_eq_refl (key_id_of p (public_of key)),
          laws.decode-encode (p.sign key written.0),
          laws.length-sign key written.0,
          again,
          laws.verify-sign key written.0 sized own,
          canonical.1,
        ),
        refl,
        refl,
      )
