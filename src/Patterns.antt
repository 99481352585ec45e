-- ===== src/Patterns.antt =====
-- The regular expressions of the program. Most have the form ^[first][rest]{0,n}$; they name
-- ASCII classes only, so a byte of a longer character never matches.
use virtual_cloud_help_servi.Prelude.{
  ℕ, Bool, true, false, ◌&&◌, ◌||◌, List, [], ◌∷◌, leb, ◌==◌, length, all, if◌then◌else◌, ◌++◌, ◌≡◌,
  refl,
}
use virtual_cloud_help_servi.Prelude.Text.{Text, bytes}

abbrev pub between : ℕ → ℕ → ℕ → Bool
between lo hi c = leb lo c && leb c hi

abbrev pub is_digit : ℕ → Bool
is_digit = between b'0' b'9'

abbrev pub is_lower : ℕ → Bool
is_lower = between b'a' b'z'

abbrev pub is_upper : ℕ → Bool
is_upper = between b'A' b'Z'

abbrev pub is_lower_alnum : ℕ → Bool
is_lower_alnum c = is_lower c || is_digit c

abbrev pub is_alnum : ℕ → Bool
is_alnum c = is_lower c || is_upper c || is_digit c

-- [a-z0-9-]
abbrev pub is_id_char : ℕ → Bool
is_id_char c = is_lower_alnum c || c == b'-'

-- ^[first][rest]{0,most}$
unfoldable pub matches : (ℕ → Bool) → (ℕ → Bool) → ℕ → Text → Bool
unfolding all
matches first rest most [] = false
matches first rest most (c ∷ cs) = first c && leb (length cs) most && all rest cs

-- ^[class]{n}$
unfoldable pub matches_exactly : (ℕ → Bool) → ℕ → Text → Bool
unfolding all
matches_exactly class n cs = length cs == n && all class cs

-- (?i) also folds U+017F to `s` and U+212A to `k`.
unfoldable pub fold_case : Text → Text
fold_case [] = []
fold_case (a ∷ b ∷ c ∷ cs) =
    let two = fold_case (c ∷ cs) in
    let three = fold_case cs in
    let one = fold_case (b ∷ c ∷ cs) in
    if a == 0xc5 && b == 0xbf
    then b's' ∷ two
    else if a == 0xe2 && (b == 0x84 && c == 0xaa)
    then b'k' ∷ three
    else a ∷ one
fold_case (a ∷ b ∷ []) = if a == 0xc5 && b == 0xbf then b's' ∷ [] else a ∷ b ∷ []
fold_case (a ∷ []) = a ∷ []

-- The pieces between dots; there is at least one.
unfoldable pub split_dots : Text → Text → List Text
split_dots piece [] = piece ∷ []
split_dots piece (c ∷ cs) = elim (c == b'.') [
  | true ↦ piece ∷ split_dots [] cs
  | false ↦ split_dots (piece ++ c ∷ []) cs
]

-- One dot may end a host name.
unfoldable pub trim_final : List Text → List Text
trim_final [] = []
trim_final (x ∷ []) = x ∷ []
trim_final (x ∷ [] ∷ []) = x ∷ []
trim_final (x ∷ y ∷ ys) = x ∷ trim_final (y ∷ ys)

-- The last byte of `c ∷ cs`.
abbrev pub last_byte : ℕ → Text → ℕ
last_byte c [] = c
last_byte c (d ∷ ds) = last_byte d ds

-- [a-z0-9](?:[a-z0-9-]{0,61}[a-z0-9])?, in either case
unfoldable pub is_label : Text → Bool
unfolding all
is_label [] = false
is_label (c ∷ cs) =
    leb (length cs) 62
    && is_alnum c
    && is_alnum (last_byte c cs)
    && all (λ d. is_alnum d || d == b'-') cs

-- hostnamePattern of internal/manifest/manifest.go
unfoldable pub is_hostname : Text → Bool
unfolding all fold_case split_dots trim_final is_label
is_hostname s = all is_label (trim_final (split_dots [] (fold_case s)))

hostname_tests :
    (is_hostname (bytes "vpn-1.Example.org.") ≡ true)
    × (is_hostname (bytes "a..b") ≡ false)
    × (is_hostname (bytes "-a.b") ≡ false)
    × (is_hostname [] ≡ false)
    × (is_hostname (0xe2 ∷ 0x84 ∷ 0xaa ∷ []) ≡ true)
unfolding is_hostname
hostname_tests = (refl, refl, refl, refl, refl)
