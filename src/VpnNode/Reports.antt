-- ===== src/VpnNode/Reports.antt =====
-- What the accepted reports say.
use virtual_cloud_help_servi.Prelude.{
  ℕ, ◌+◌, ◌<◌, ◌≤◌, ◌≡◌, true, false, List, [], ◌∷◌, length, All, ok, arith, ◌⊎◌, inl, inr, refl,
  if◌then◌else◌,
}
use mathlib.Core.List.{Perm}
use virtual_cloud_help_servi.Prelude.Text.{
  Text, bytes, contains, text_eq, text_eq_iff, text_lt, text_lt_asymm,
}
use virtual_cloud_help_servi.Prelude.Sort.{
  sort_by, insert_by, IsSorted, sort_by-perm, sort_by-IsSorted,
}
use virtual_cloud_help_servi.VpnNode.{
  TransportHealth, Health, state_ready, state_degraded, state_down, canonical_capabilities,
  count_up, validate_health, validate_transport, validate_capabilities, check_capabilities,
}

-- How many transports are up.
unfoldable pub up_among : List TransportHealth → ℕ
up_among [] = 0
up_among (item ∷ rest) = if item.up then up_among rest + 1 else up_among rest

count_up_lem :
    (seen : List Text) (up : ℕ) (items : List TransportHealth) {n : ℕ}
    → count_up seen up items ≡ ok n
    → n ≡ up + up_among items
unfolding count_up up_among
count_up_lem seen up [] {n} h = ground arith
count_up_lem seen up (item ∷ rest) {n} h =
    let later : count_up (item.transport ∷ seen) (if item.up then up + 1 else up) rest ≡ ok n =
      ground arith in
    ground (
      arith,
      count_up_lem (item.transport ∷ seen) (if item.up then up + 1 else up) rest {n = n} later,
    )

up_among_le : (items : List TransportHealth) → up_among items ≤ length items
unfolding up_among
up_among_le [] = omega arith
up_among_le (item ∷ rest) = ground (arith, up_among_le rest)

every_up :
    (items : List TransportHealth)
    → up_among items ≡ length items
    → All (λ (t : TransportHealth). t.up ≡ true) items
unfolding up_among
every_up [] h = tt
every_up (item ∷ rest) h =
    (ground (arith, up_among_le rest), every_up rest (ground (arith, up_among_le rest)))

every_down :
    (items : List TransportHealth)
    → up_among items ≡ 0
    → All (λ (t : TransportHealth). t.up ≡ false) items
unfolding up_among
every_down [] h = tt
every_down (item ∷ rest) h = (ground arith, every_down rest (ground arith))

-- In a health report that is accepted, READY means that every transport is up, DOWN that every
-- transport is down, and DEGRADED that some are up and some are not.
pub validate_health-states :
    (value : Health)
    → validate_health value ≡ ok tt
    → (text_eq value.state state_ready ≡ true
        → All (λ (t : TransportHealth). t.up ≡ true) value.transports)
      × (text_eq value.state state_down ≡ true
          → All (λ (t : TransportHealth). t.up ≡ false) value.transports)
      × (text_eq value.state state_degraded ≡ true
          → (0 < up_among value.transports) × (up_among value.transports < length value.transports))
unfolding validate_health
validate_health-states value h =
    let counted : (n : ℕ) × (count_up [] 0 value.transports ≡ ok n) = ground arith in
    let total = count_up_lem [] 0 value.transports {n = counted.0} counted.1 in
    (
      λ s. every_up value.transports (ground (arith, counted.1, total)),
      λ s. every_down value.transports (ground (arith, counted.1, total)),
      λ s. (
        ground (arith, counted.1, total, up_among_le value.transports),
        ground (arith, counted.1, total, up_among_le value.transports),
      ),
    )

abbrev pub amneziawg : Text
amneziawg = bytes "amneziawg"

abbrev pub xray_reality : Text
xray_reality = bytes "xray_reality"

-- The lists of capabilities in the order of their names.
abbrev pub IsCanonical : List Text → Type 0
IsCanonical result =
    (result ≡ amneziawg ∷ [])
    ⊎ (result ≡ xray_reality ∷ [])
    ⊎ (result ≡ amneziawg ∷ xray_reality ∷ [])

transport_cases : (s : Text) → validate_transport s ≡ ok tt → (s ≡ amneziawg) ⊎ (s ≡ xray_reality)
unfolding validate_transport
transport_cases s h = ground (arith, text_eq_iff s amneziawg, text_eq_iff s xray_reality)

-- There are two transports, and none comes twice.
accepted_lists :
    (values : List Text)
    → validate_capabilities values ≡ ok tt
    → (values ≡ amneziawg ∷ [])
      ⊎ (values ≡ xray_reality ∷ [])
      ⊎ (values ≡ amneziawg ∷ xray_reality ∷ [])
      ⊎ (values ≡ xray_reality ∷ amneziawg ∷ [])
unfolding validate_capabilities check_capabilities contains
accepted_lists [] h = absurd (ground arith)
accepted_lists (x ∷ []) h =
    let first : validate_transport x ≡ ok tt = ground arith in
    ground (arith, transport_cases x first)
accepted_lists (x ∷ y ∷ []) h =
    let first : validate_transport x ≡ ok tt = ground arith in
    let second : validate_transport y ≡ ok tt = ground arith in
    let differ : text_eq x y ≡ false = ground arith in
    ground (arith, transport_cases x first, transport_cases y second, text_eq_iff x y)
accepted_lists (x ∷ y ∷ z ∷ rest) h =
    let first : validate_transport x ≡ ok tt = ground arith in
    let second : validate_transport y ≡ ok tt = ground arith in
    let third : validate_transport z ≡ ok tt = ground arith in
    absurd (
      ground (
        arith,
        transport_cases x first,
        transport_cases y second,
        transport_cases z third,
        text_eq_iff x y,
        text_eq_iff x z,
        text_eq_iff y z,
      ))

accepted_sorted :
    (values : List Text)
    → validate_capabilities values ≡ ok tt
    → IsCanonical (sort_by text_lt values)
unfolding sort_by insert_by text_lt
accepted_sorted values h = elim (accepted_lists values h) [
  | inl one ↦ rw one (inl refl)
  | inr (inl one) ↦ rw one (inr (inl refl))
  | inr (inr (inl two)) ↦ rw two (inr (inr refl))
  | inr (inr (inr two)) ↦ rw two (inr (inr refl))
]

-- Capabilities are accepted only where they are one or both of the two transports, each once; they
-- become the same transports in the order of their names.
pub canonical_capabilities-IsCanonical :
    (values : List Text) {result : List Text}
    → canonical_capabilities values ≡ ok result
    → IsCanonical result × Perm result values × IsSorted text_lt result
unfolding canonical_capabilities
canonical_capabilities-IsCanonical values {result} h =
    let valid : validate_capabilities values ≡ ok tt = ground arith in
    let same : sort_by text_lt values ≡ result = ground arith in
    rw (← same) (
      accepted_sorted values valid,
      sort_by-perm text_lt values,
      sort_by-IsSorted text_lt text_lt_asymm values,
    )
