-- ===== src/PilotAccess/Uuid.antt =====
-- `newUUID` of internal/pilotaccess/access.go, and that its identifiers pass the pattern.
use Prim.Native.Nat.{bit_and, bit_or}
use virtual_cloud_help_servi.Prelude.{
  ℕ, zero, suc, ◌+◌, ◌-◌, ◌/◌, ◌%◌, ◌<◌, ◌≡◌, Bool, true, false, ◌&&◌, ◌||◌, List, [], ◌∷◌, ◌++◌,
  Option, none, some, ltb, ◌==◌, length, take, drop, if◌then◌else◌, All, refl, arith, inl, inr,
  Bool-cases, ==_iff,
}
use virtual_cloud_help_servi.Prelude.Text.{Text, bytes}
use virtual_cloud_help_servi.PilotAccess.{uuid_pattern, matches_each, is_hex}

abbrev pub hex_digit : ℕ → ℕ
hex_digit n = if ltb n 10 then b'0' + n else b'a' + (n - 10)

-- %x on bytes
unfoldable pub hex_of : Text → Text
hex_of [] = []
hex_of (b ∷ bs) = hex_digit (b / 16) ∷ hex_digit (b % 16) ∷ hex_of bs

-- `raw[i] = f(raw[i])`
unfoldable pub set_at : ℕ → (ℕ → ℕ) → Text → Text
set_at i f [] = []
set_at zero f (b ∷ bs) = f b ∷ bs
set_at (suc i) f (b ∷ bs) = b ∷ set_at i f bs

abbrev pub version_bits : ℕ → ℕ
version_bits b = bit_or (bit_and b 0x0f) 0x40

abbrev pub variant_bits : ℕ → ℕ
variant_bits b = bit_or (bit_and b 0x3f) 0x80

unfoldable pub format_uuid : Text → Text
unfolding hex_of
format_uuid raw =
    hex_of (take 4 raw)
    ++ bytes "-"
    ++ hex_of (take 2 (drop 4 raw))
    ++ bytes "-"
    ++ hex_of (take 2 (drop 6 raw))
    ++ bytes "-"
    ++ hex_of (take 2 (drop 8 raw))
    ++ bytes "-"
    ++ hex_of (take 6 (drop 10 raw))

-- The bytes that rand.Read gives, or none where it fails.
unfoldable pub new_uuid : Option Text → Option Text
unfolding format_uuid set_at
new_uuid none = none
new_uuid (some raw) = some (format_uuid (set_at 8 variant_bits (set_at 6 version_bits raw)))

-- `p` holds of all numbers below `n`.
unfoldable all_below : (ℕ → Bool) → ℕ → Bool
all_below p zero = true
all_below p (suc n) = elim (p n) [ true ↦ all_below p n | false ↦ false ]

all_below-lem : (p : ℕ → Bool) (n x : ℕ) → all_below p n ≡ true → x < n → p x ≡ true
unfolding all_below
all_below-lem p zero x h lt = absurd (omega arith)
all_below-lem p (suc n) x h lt = elim (Bool-cases (x == n)) [
  | inl same ↦ rw ((==_iff x n).0 same) (ground arith)
  | inr differs ↦ all_below-lem p n x (ground arith) (ground (arith, ==_iff x n))
]

-- The first digit after the version's bits are set is 4, and the second is a digit.
version_bits-lem :
    (b : ℕ)
    → b < 256
    → (hex_digit (version_bits b / 16) ≡ b'4') × (is_hex (hex_digit (version_bits b % 16)) ≡ true)
unfolding all_below
version_bits-lem b lt =
    let checked =
      all_below-lem
        (λ b. hex_digit (version_bits b / 16) == b'4' && is_hex (hex_digit (version_bits b % 16)))
        256 b refl lt in
    ground (arith, checked)

abbrev is_variant : ℕ → Bool
is_variant c = c == b'8' || c == b'9' || c == b'a' || c == b'b'

variant_bits-lem :
    (b : ℕ)
    → b < 256
    → (is_variant (hex_digit (variant_bits b / 16)) ≡ true)
      × (is_hex (hex_digit (variant_bits b % 16)) ≡ true)
unfolding all_below
variant_bits-lem b lt =
    let checked =
      all_below-lem
        (λ b.
          is_variant (hex_digit (variant_bits b / 16)) && is_hex (hex_digit (variant_bits b % 16)))
        256 b refl lt in
    ground (arith, checked)

hex_digit-is_hex : (n : ℕ) → n < 16 → is_hex (hex_digit n) ≡ true
hex_digit-is_hex n lt = ground arith

matches_each-append :
    (ps qs : List (ℕ → Bool)) (s t : Text)
    → matches_each ps s ≡ true
    → matches_each qs t ≡ true
    → matches_each (ps ++ qs) (s ++ t) ≡ true
unfolding matches_each
matches_each-append [] qs [] t h k = k
matches_each-append [] qs (c ∷ s) t h k = absurd (ground arith)
matches_each-append (p ∷ ps) qs [] t h k = absurd (ground arith)
matches_each-append (p ∷ ps) qs (c ∷ s) t h k = ground (arith, matches_each-append ps qs s t)

-- Twice as many hexadecimal digits as there are bytes.
abbrev hex_classes : Text → List (ℕ → Bool)
hex_classes [] = []
hex_classes (b ∷ bs) = is_hex ∷ is_hex ∷ hex_classes bs

hex_of-matches_each :
    (bs : Text) → All (λ b. b < 256) bs → matches_each (hex_classes bs) (hex_of bs) ≡ true
unfolding hex_of matches_each
hex_of-matches_each [] h = refl
hex_of-matches_each (b ∷ bs) h =
    ground (arith, hex_digit-is_hex (b / 16), hex_digit-is_hex (b % 16), hex_of-matches_each bs h.1)

-- From any sixteen random bytes an identifier is made, and it is a canonical UUID.
pub new_uuid-uuid_pattern :
    (raw : Text)
    → length raw ≡ 16
    → All (λ b. b < 256) raw
    → (id : Text) × (new_uuid (some raw) ≡ some id) × (uuid_pattern id ≡ true)
unfolding new_uuid matches_each
new_uuid-uuid_pattern (a ∷ b ∷ c ∷ d ∷ e ∷ f ∷ g ∷ h ∷ i ∷ j ∷ k ∷ l ∷ m ∷ n ∷ o ∷ q ∷ []) sized u =
    let first =
      hex_of-matches_each (a ∷ b ∷ c ∷ d ∷ []) (u.0, (u.1.0, (u.1.1.0, (u.1.1.1.0, tt)))) in
    let second = hex_of-matches_each (e ∷ f ∷ []) (u.1.1.1.1.0, (u.1.1.1.1.1.0, tt)) in
    let third = version_bits-lem g (u.1.1.1.1.1.1.0) in
    let fourth = variant_bits-lem i (u.1.1.1.1.1.1.1.1.0) in
    let after_third = hex_of-matches_each (h ∷ []) (u.1.1.1.1.1.1.1.0, tt) in
    let after_fourth = hex_of-matches_each (j ∷ []) (u.1.1.1.1.1.1.1.1.1.0, tt) in
    let fifth = hex_of-matches_each (k ∷ l ∷ m ∷ n ∷ o ∷ q ∷ []) (
      u.1.1.1.1.1.1.1.1.1.1.0,
      (
        u.1.1.1.1.1.1.1.1.1.1.1.0,
        (
          u.1.1.1.1.1.1.1.1.1.1.1.1.0,
          (
            u.1.1.1.1.1.1.1.1.1.1.1.1.1.0,
            (u.1.1.1.1.1.1.1.1.1.1.1.1.1.1.0, (u.1.1.1.1.1.1.1.1.1.1.1.1.1.1.1.0, tt)),
          ),
        ),
      ),
    ) in
    (_, refl, ground (arith, first, second, third, fourth, after_third, after_fourth, fifth))
new_uuid-uuid_pattern raw sized h = absurd (omega arith)
