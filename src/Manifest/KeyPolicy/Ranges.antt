-- ===== src/Manifest/KeyPolicy/Ranges.antt =====
-- The version ranges of a checked policy: they start at 1, each continues the one before it, and
-- the last has no end. So they share no version and leave none out.
use virtual_cloud_help_servi.Prelude.{
  ℕ, ◌+◌, ◌^◌, ◌<◌, ◌≤◌, ◌≡◌, ◌⊎◌, refl, true, false, Option, none, some, List, [], ◌∷◌, arith, ok,
  Bool-cases, inl, inr, All, if◌then◌else◌,
}
use virtual_cloud_help_servi.Prelude.Text.{Text, text_eq, text_eq_iff, text_eq_refl}
use virtual_cloud_help_servi.Prelude.Keyed.{lookup_key, Distinct}
use virtual_cloud_help_servi.Platform.{Platform}
use virtual_cloud_help_servi.Manifest.Types.{KeyGrant}
use virtual_cloud_help_servi.Manifest.KeyPolicy.{
  grant_key, follows, authorizes, check_grants, ends_open,
}
use virtual_cloud_help_servi.Manifest.KeyPolicy.Find.{check_grants-Round}

-- The type of the field: a uint64.
abbrev pub IsWord : KeyGrant → Type 0
IsWord g = g.not_after_version < 2 ^ 64

abbrev pub Ranges : ℕ → ℕ → List KeyGrant → Type 0
Ranges lo e [] = Unit
Ranges lo e (g ∷ []) = (g.not_before_version ≡ lo) × (g.epoch ≡ e) × (g.not_after_version ≡ 0)
Ranges lo e (g ∷ h ∷ gs) =
    (g.not_before_version ≡ lo)
    × (g.epoch ≡ e)
    × (lo ≤ g.not_after_version)
    × Ranges (g.not_after_version + 1) (e + 1) (h ∷ gs)

-- The grant whose range holds the version.
abbrev pub holder : List KeyGrant → ℕ → Option KeyGrant
holder [] version = none
holder (g ∷ gs) version = if authorizes g version then some g else holder gs version

record Next (g h : KeyGrant) : Type 0 where
  start : h.not_before_version ≡ g.not_after_version + 1
  epoch : h.epoch ≡ g.epoch + 1
  bounded : h.epoch < 2 ^ 64
  closed : 0 < g.not_after_version

follows-Next :
    (g h : KeyGrant)
    → follows (some g) h ≡ ok tt
    → IsWord g
    → g.epoch < 2 ^ 64
    → 0 < h.epoch
    → Next g h
unfolding follows
follows-Next g h f w e q = ground arith

module _ (p : Platform) where
  pub check_grants-Ranges :
      (seen : List Text) (previous : Option KeyGrant) (g : KeyGrant) (gs : List KeyGrant)
      → check_grants p seen previous (g ∷ gs) ≡ ok tt
      → ends_open (g ∷ gs) ≡ true
      → All IsWord (g ∷ gs)
      → g.epoch < 2 ^ 64
      → Ranges g.not_before_version g.epoch (g ∷ gs)
  unfolding ends_open
  check_grants-Ranges seen previous g [] c o w b = (refl, refl, ground arith)
  check_grants-Ranges seen previous g (h ∷ hs) c o w b =
      let r = check_grants-Round p seen previous g (h ∷ hs) c in
      let r' = check_grants-Round p (g.key_id ∷ seen) (some g) h hs r.rest in
      let n = follows-Next g h r'.linked w.0 b r'.epoch_pos in
      let ih = check_grants-Ranges (g.key_id ∷ seen) (some g) h hs r.rest o w.1 n.bounded in
      (refl, refl, omega (arith, r.range, n.closed), rw (n.start, n.epoch) at ih)

-- No range starts below the first.
lookup-start :
    (lo e : ℕ) (gs : List KeyGrant) (k : Text) {g : KeyGrant}
    → Ranges lo e gs
    → lookup_key grant_key gs k ≡ some g
    → lo ≤ g.not_before_version
unfolding lookup_key
lookup-start lo e [] k r l = cc
lookup-start lo e (x ∷ []) k r l = ground arith
lookup-start lo e (x ∷ y ∷ ys) k {g} r l = elim (Bool-cases (text_eq x.key_id k)) [
  | inl h ↦ ground arith
  | inr h ↦ omega (
    arith,
    r.2,
    lookup-start (x.not_after_version + 1) (e + 1) (y ∷ ys) k {g = g} r.3 (ground arith),
  )
]

-- A grant that authorizes a version is the one whose range holds it.
pub lookup-holder :
    (lo e : ℕ) (gs : List KeyGrant) (k : Text) (version : ℕ) {g : KeyGrant}
    → 0 < lo
    → Ranges lo e gs
    → lookup_key grant_key gs k ≡ some g
    → authorizes g version ≡ true
    → holder gs version ≡ some g
unfolding lookup_key authorizes
lookup-holder lo e [] k version q r l a = cc
lookup-holder lo e (x ∷ []) k version q r l a = ground arith
lookup-holder lo e (x ∷ y ∷ ys) k version {g} q r l a = elim (Bool-cases (text_eq x.key_id k)) [
  | inl h ↦ ground arith
  | inr h ↦
      let l' : lookup_key grant_key (y ∷ ys) k ≡ some g = ground arith in
      let ih =
        lookup-holder (x.not_after_version + 1) (e + 1) (y ∷ ys) k version {g = g} (omega arith) r.3
          l' a in
      ground
        (arith, lookup-start (x.not_after_version + 1) (e + 1) (y ∷ ys) k {g = g} r.3 l', r.2, ih)
]

-- Every version from the start on has a holder, and it is found by its key.
pub holder-total :
    (lo e : ℕ) (g : KeyGrant) (gs : List KeyGrant) (version : ℕ)
    → lo ≤ version
    → Ranges lo e (g ∷ gs)
    → Distinct grant_key (g ∷ gs)
    → (h : KeyGrant) × (lookup_key grant_key (g ∷ gs) h.key_id ≡ some h)
      × (authorizes h version ≡ true)
unfolding lookup_key
holder-total lo e g [] version le r d =
    (g, rw (text_eq_refl g.key_id), unfold authorizes in ground arith)
holder-total lo e g (x ∷ xs) version le r d = elim (Bool-cases (authorizes g version)) [
  | inl a ↦ (g, rw (text_eq_refl g.key_id), a)
  | inr a ↦
      let above : g.not_after_version + 1 ≤ version = unfold authorizes in ground arith in
      let (h, l, b) = holder-total (g.not_after_version + 1) (e + 1) x xs version above r.3 d.1 in
      (h, ground (arith, text_eq_iff g.key_id h.key_id, d.0, l), b)
]

-- Epochs grow along the ranges.
holder-epoch :
    (lo e : ℕ) (gs : List KeyGrant) (version : ℕ) {g : KeyGrant}
    → Ranges lo e gs
    → holder gs version ≡ some g
    → e ≤ g.epoch
holder-epoch lo e [] version r h = cc
holder-epoch lo e (x ∷ []) version r h = ground arith
holder-epoch lo e (x ∷ y ∷ ys) version {g} r h = elim (Bool-cases (authorizes x version)) [
  | inl a ↦ ground arith
  | inr a ↦ omega (
    arith,
    holder-epoch (x.not_after_version + 1) (e + 1) (y ∷ ys) version {g = g} r.3 (ground arith),
  )
]

-- A later version's holder is the same grant or has a larger epoch.
pub holder_order :
    (lo e : ℕ) (gs : List KeyGrant) (v w : ℕ) {g h : KeyGrant}
    → lo ≤ v
    → v ≤ w
    → Ranges lo e gs
    → holder gs v ≡ some g
    → holder gs w ≡ some h
    → (g ≡ h) ⊎ (g.epoch < h.epoch)
holder_order lo e [] v w a b r p q = cc
holder_order lo e (x ∷ []) v w a b r p q = ground arith
holder_order lo e (x ∷ y ∷ ys) v w {g} {h} a b r p q = elim (Bool-cases (authorizes x v)) [
  | inl s ↦ elim (Bool-cases (authorizes x w)) [
    | inl t ↦ ground arith
    | inr t ↦
        let l : holder (y ∷ ys) w ≡ some h = ground arith in
        let k = holder-epoch (x.not_after_version + 1) (e + 1) (y ∷ ys) w {g = h} r.3 l in
        let c : x ≡ g = ground arith in inr (rw (← c) (omega (arith, k, r.1)))
  ]
  | inr s ↦
      let above : x.not_after_version + 1 ≤ v = unfold authorizes in ground arith in
      let past : authorizes x w ≡ false = unfold authorizes in ground arith in
      holder_order (x.not_after_version + 1) (e + 1) (y ∷ ys) v w {g = g} {h = h} above b r.3
        (ground arith) (ground arith)
]
