-- ===== src/Manifest/KeyPolicy/Find.antt =====
-- `KeyPolicyGrant` as a lookup by key, and what the loop of `validateKeyPolicyShape` establishes.
use virtual_cloud_help_servi.Prelude.{
  ℕ, ◌<◌, ◌≤◌, ◌≡◌, ◌⊎◌, refl, true, false, Option, none, some, List, [], ◌∷◌, arith, length, ok,
  Bool-cases, inl, inr,
}
use virtual_cloud_help_servi.Prelude.Text.{Text, text_eq, text_eq_iff, text_eq_refl, contains}
use virtual_cloud_help_servi.Prelude.Keyed.{lookup_key, Distinct}
use virtual_cloud_help_servi.Platform.{Platform}
use virtual_cloud_help_servi.Manifest.Types.{KeyGrant}
use virtual_cloud_help_servi.Manifest.KeyPolicy.{
  grant_key, follows, authorizes, grant_key_valid, check_grant, check_grants, find_grant,
}

module _ (p : Platform) where
  -- What a successful `KeyPolicyGrant` says of the grant that it returns.
  pub record Found (gs : List KeyGrant) (k : Text) (version : ℕ) (g : KeyGrant) (raw : Text)
      : Type 0 where
    pub at_key : lookup_key grant_key gs k ≡ some g
    pub has_key : g.key_id ≡ k
    pub in_range : authorizes g version ≡ true
    pub decoded : p.decode64 g.public_key ≡ some raw
    pub sized : length raw ≡ 32

  pub find_grant-Found :
      (gs : List KeyGrant) (k : Text) (version : ℕ) {g : KeyGrant} {raw : Text}
      → find_grant p gs k version ≡ ok (g, raw)
      → Found gs k version g raw
  unfolding find_grant lookup_key
  find_grant-Found [] k version h = cc
  find_grant-Found (x ∷ xs) k version {g} {raw} h = elim (Bool-cases (text_eq x.key_id k)) [
    | inl e ↦ ground (arith, text_eq_iff x.key_id k)
    | inr e ↦
        let ih = find_grant-Found xs k version {g = g} {raw = raw} (ground arith) in
        record {
          at_key = rw e ih.at_key;
          has_key = ih.has_key;
          in_range = ih.in_range;
          decoded = ih.decoded;
          sized = ih.sized;
        }
  ]

  pub find_grant-of :
      (gs : List KeyGrant) (k : Text) (version : ℕ) {g : KeyGrant} {raw : Text}
      → lookup_key grant_key gs k ≡ some g
      → authorizes g version ≡ true
      → p.decode64 g.public_key ≡ some raw
      → length raw ≡ 32
      → find_grant p gs k version ≡ ok (g, raw)
  unfolding find_grant lookup_key
  find_grant-of [] k version l a d s = cc
  find_grant-of (x ∷ xs) k version {g} {raw} l a d s = elim (Bool-cases (text_eq x.key_id k)) [
    | inl e ↦ ground arith
    | inr e ↦ ground (arith, find_grant-of xs k version {g = g} {raw = raw})
  ]

  -- What one round of the loop has checked.
  pub record Round (seen : List Text) (previous : Option KeyGrant) (g : KeyGrant)
      (gs : List KeyGrant) : Type 0 where
    pub keyed : grant_key_valid p g ≡ true
    pub fresh : contains seen g.key_id ≡ false
    pub epoch_pos : 0 < g.epoch
    pub start_pos : 0 < g.not_before_version
    pub range : (g.not_after_version ≡ 0) ⊎ (g.not_before_version ≤ g.not_after_version)
    pub linked : follows previous g ≡ ok tt
    pub rest : check_grants p (g.key_id ∷ seen) (some g) gs ≡ ok tt

  pub check_grants-Round :
      (seen : List Text) (previous : Option KeyGrant) (g : KeyGrant) (gs : List KeyGrant)
      → check_grants p seen previous (g ∷ gs) ≡ ok tt
      → Round seen previous g gs
  unfolding check_grants check_grant
  check_grants-Round seen previous g gs h = ground arith

  lookup_key-seen :
      (seen : List Text) (previous : Option KeyGrant) (gs : List KeyGrant) (k : Text)
      → check_grants p seen previous gs ≡ ok tt
      → contains seen k ≡ true
      → lookup_key grant_key gs k ≡ none
  unfolding lookup_key contains
  lookup_key-seen seen previous [] k h c = refl
  lookup_key-seen seen previous (g ∷ gs) k h c =
      let r = check_grants-Round seen previous g gs h in
      ground (
        arith,
        r.fresh,
        text_eq_iff g.key_id k,
        lookup_key-seen (g.key_id ∷ seen) (some g) gs k r.rest,
      )

  -- A checked list has distinct keys.
  pub check_grants-Distinct :
      (seen : List Text) (previous : Option KeyGrant) (gs : List KeyGrant)
      → check_grants p seen previous gs ≡ ok tt
      → Distinct grant_key gs
  check_grants-Distinct seen previous [] h = tt
  check_grants-Distinct seen previous (g ∷ gs) h =
      let r = check_grants-Round seen previous g gs h in
      (
        lookup_key-seen (g.key_id ∷ seen) (some g) gs g.key_id r.rest
            (unfold contains in rw (text_eq_refl g.key_id, contains)),
        check_grants-Distinct (g.key_id ∷ seen) (some g) gs r.rest,
      )

  -- Every entry of a checked list has a well-formed key, and an epoch.
  pub check_grants-decoded :
      (seen : List Text) (previous : Option KeyGrant) (gs : List KeyGrant) (k : Text) {g : KeyGrant}
      → check_grants p seen previous gs ≡ ok tt
      → lookup_key grant_key gs k ≡ some g
      → (grant_key_valid p g ≡ true) × (0 < g.epoch)
  unfolding lookup_key
  check_grants-decoded seen previous [] k h l = absurd (cc l)
  check_grants-decoded seen previous (x ∷ xs) k {g} h l =
      let r = check_grants-Round seen previous x xs h in
      elim (Bool-cases (text_eq x.key_id k)) [
        | inl e ↦ let same : x ≡ g = ground arith in rw (← same) (r.keyed, r.epoch_pos)
        | inr e ↦ check_grants-decoded (x.key_id ∷ seen) (some x) xs k r.rest (ground arith)
      ]
