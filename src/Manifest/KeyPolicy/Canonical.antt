-- ===== src/Manifest/KeyPolicy/Canonical.antt =====
-- A key policy and its canonical form validate alike and grant alike.
use virtual_cloud_help_servi.Prelude.{ℕ, ◌≡◌, true, false, List, arith, ok, length, ◌∙◌}
use virtual_cloud_help_servi.Prelude.Text.{Text, text_lt_asymm}
use virtual_cloud_help_servi.Prelude.Sort.{sort_by_idem}
use virtual_cloud_help_servi.Prelude.Keyed.{length-sort_by}
use virtual_cloud_help_servi.Platform.{Platform}
use virtual_cloud_help_servi.Manifest.Types.{KeyGrant, KeyPolicy}
use virtual_cloud_help_servi.Manifest.KeyPolicy.{
  grant_less, canonical_key_grants, canonical_key_policy, validate_key_policy_shape,
  key_policy_signing_bytes, validate_key_policy, key_policy_grant,
}
use virtual_cloud_help_servi.Manifest.KeyPolicy.Find.{find_grant-Found, find_grant-of}
use virtual_cloud_help_servi.Manifest.KeyPolicy.Grants.{lookup-canonical}

grant_less_asymm : (a b : KeyGrant) → grant_less a b ≡ true → grant_less b a ≡ false
unfolding grant_less
grant_less_asymm a b h = ground (arith, text_lt_asymm a.key_id b.key_id)

-- Sorting the grants twice is sorting them once.
pub canonical_key_grants_idem :
    (gs : List KeyGrant) → canonical_key_grants (canonical_key_grants gs) ≡ canonical_key_grants gs
unfolding canonical_key_grants
canonical_key_grants_idem gs = sort_by_idem grant_less grant_less_asymm gs

length-canonical : (gs : List KeyGrant) → length (canonical_key_grants gs) ≡ length gs
unfolding canonical_key_grants
length-canonical gs = length-sort_by grant_less gs

module _ (p : Platform) where
  pub validate_key_policy_shape-canonical :
      (policy : KeyPolicy)
      → validate_key_policy_shape p (canonical_key_policy policy)
        ≡ validate_key_policy_shape p policy
  unfolding validate_key_policy_shape canonical_key_policy
  validate_key_policy_shape-canonical policy =
      rw (length-canonical policy.keys, canonical_key_grants_idem policy.keys)

  pub validate_key_policy-canonical :
      (policy : KeyPolicy) (root : Text)
      → validate_key_policy p (canonical_key_policy policy) root ≡ validate_key_policy p policy root
  unfolding validate_key_policy key_policy_signing_bytes
  validate_key_policy-canonical policy root =
      rw validate_key_policy_shape-canonical
        (unfold canonical_key_policy in rw (canonical_key_grants_idem policy.keys))

  -- The canonical form of a valid policy grants what the policy grants.
  pub key_policy_grant-canonical :
      (policy : KeyPolicy) (k : Text) (version : ℕ) {g : KeyGrant} {raw : Text}
      → validate_key_policy_shape p policy ≡ ok tt
      → key_policy_grant p policy k version ≡ ok (g, raw)
      → key_policy_grant p (canonical_key_policy policy) k version ≡ ok (g, raw)
  unfolding key_policy_grant canonical_key_policy
  key_policy_grant-canonical policy k version {g} {raw} valid found =
      let f = find_grant-Found p policy.keys k version {g = g} {raw = raw} found in
      find_grant-of p (canonical_key_grants policy.keys) k version
        (lookup-canonical p policy k valid ∙ f.at_key) f.in_range f.decoded f.sized
