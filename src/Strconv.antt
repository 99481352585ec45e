-- ===== src/Strconv.antt =====
-- strconv.Atoi: an optional sign and decimal digits, within a 64-bit int.
use virtual_cloud_help_servi.Prelude.{
  ℕ, zero, suc, ◌+◌, ◌-◌, ◌*◌, ◌^◌, Bool, true, false, ◌&&◌, Option, none, some, [], ◌∷◌, leb, ltb,
  ◌==◌, ◌≡◌, refl, if◌then◌else◌,
}
use virtual_cloud_help_servi.Prelude.Text.{Text, bytes}
use virtual_cloud_help_servi.Prelude.Int.{ℤ, pos, negsuc}
use virtual_cloud_help_servi.Patterns.{is_digit}

unfoldable pub digits : ℕ → Text → Option ℕ
digits n [] = some n
digits n (c ∷ cs) = elim (is_digit c) [ true ↦ digits (n * 10 + (c - b'0')) cs | false ↦ none ]

-- At least one digit.
unfoldable pub natural : Text → Option ℕ
unfolding digits
natural [] = none
natural (c ∷ cs) = digits 0 (c ∷ cs)

abbrev pub negate : ℕ → ℤ
negate zero = pos 0
negate (suc n) = negsuc n

abbrev signed : Bool → Option ℕ → Option ℤ
signed negative none = none
signed negative (some n) =
    if negative
    then (if leb n (2 ^ 63) then some (negate n) else none)
    else (if ltb n (2 ^ 63) then some (pos n) else none)

unfoldable pub atoi : Text → Option ℤ
unfolding natural
atoi [] = none
atoi (c ∷ cs) =
    if c == b'-'
    then signed true (natural cs)
    else if c == b'+'
    then signed false (natural cs)
    else signed false (natural (c ∷ cs))

abbrev in_port_range : Option ℤ → Bool
in_port_range none = false
in_port_range (some (negsuc n)) = false
in_port_range (some (pos n)) = leb 1 n && leb n 65_535

-- `port, err := strconv.Atoi(text); err == nil && 1 <= port && port <= 65535`
unfoldable pub valid_port : Text → Bool
unfolding atoi
valid_port port_text = in_port_range (atoi port_text)

atoi_tests :
    (atoi (bytes "-12") ≡ some (negsuc 11))
    × (atoi (bytes "9223372036854775808") ≡ none)
    × (atoi (bytes "+") ≡ none)
    × (valid_port (bytes "65535") ≡ true)
    × (valid_port (bytes "0x1") ≡ false)
unfolding atoi valid_port
atoi_tests = (refl, refl, refl, refl, refl)
