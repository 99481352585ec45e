-- ===== src/PilotApi.antt =====
-- internal/pilotapi/handler.go: the pilot's administration over HTTP. The JSON decoder over a
-- limited body and the encoder are parameters, the two services functions on a state.
pub mod Handler
pub mod Requests
pub mod Guard
pub mod Pilot
use virtual_cloud_help_servi.Prelude.{
  ℕ, ◌+◌, ◌-◌, Bool, true, false, not, ◌&&◌, ◌||◌, List, [], ◌∷◌, ◌++◌, Option, none, some, map,
  all, ltb, leb, ◌==◌, length, take, drop, if◌then◌else◌, Result, ok, err, reject, or_fail, ◌>>=◌,
  ◌>>◌,
}
use virtual_cloud_help_servi.Prelude.Text.{Text, bytes, text_eq, contains}
use virtual_cloud_help_servi.PilotAccess.{
  Access, AccessFault, invalid, returned_invalid, not_found, conflict, no_id, failure,
  RegisterInput, to_lower, has_prefix, has_part,
}
use virtual_cloud_help_servi.PilotTelemetry.{TestResult, RecordInput}
use virtual_cloud_help_servi.Http.{
  HttpRequest, HttpResponse, header, is_method, method_get, method_post,
}

-- What `errors.Is` tells of a service's error.
pub data ServiceFault : Type 0 where
  is_invalid is_not_found is_conflict deadline_exceeded other_error : ServiceFault

-- What decoding the limited body meets.
pub data BodyFault : Type 0 where
  too_large malformed : BodyFault

pub data TrailingRead : Type 0 where
  at_end another_value : TrailingRead
  trailing_fault : BodyFault → TrailingRead

pub data ApiFault : Type 0 where
  token_range placeholder_token token_characters : ApiFault

-- decoder.Decode into a struct, with unknown fields refused, over http.MaxBytesReader: the value
-- and what decoding another value then meets. `M` is what a report holds.
pub record Wire (M : Type 0) : Type 0 where
  pub sha256 : Text → Text
  -- the media type of mime.ParseMediaType, or none for an error
  pub media_type : Text → Option Text
  pub read_register : Text → Result BodyFault (RegisterInput × TrailingRead)
  pub read_result : Text → Result BodyFault (RecordInput × TrailingRead)
  pub write_access : Access → Text
  pub write_result : TestResult → Text
  pub write_report : M → Text
  pub write_error : Text → Text

pub record Services (S M : Type 0) : Type 0 where
  pub register : S → RegisterInput → S × Result ServiceFault Access
  pub revoke : S → Text → S × Result ServiceFault Access
  -- none where there is no telemetry
  pub record_result : Option (S → RecordInput → S × Result ServiceFault TestResult)
  pub report : Option (S → S × Result ServiceFault M)

-- character <= ' ' || character == 127
abbrev pub is_blank : ℕ → Bool
is_blank c = leb c 0x20 || c == 127

-- `NewWithTelemetry`: the digest of a token that may be used. `lower` is strings.ToLower.
unfoldable pub token_digest : (Text → Text) → (Text → Text) → Text → Result ApiFault Text
unfolding has_part all
token_digest sha256 lower token = do
  reject (ltb (length token) 32 || ltb 512 (length token)) token_range
  reject (has_part (lower token) (bytes "replace-with")) placeholder_token
  reject (not (all (λ c. not (is_blank c)) token)) token_characters
  ok (sha256 token)

-- strings.Cut(s, " ")
unfoldable pub cut_space : Text → Option (Text × Text)
cut_space [] = none
cut_space (c ∷ cs) =
    let rest = cut_space cs in
    if c == b' '
    then some ([], cs)
    else elim rest [ none ↦ none | some (before, after) ↦ some (c ∷ before, after) ]

unfoldable pub authorized : (Text → Text) → Text → HttpRequest → Bool
unfolding cut_space all
authorized sha256 digest request = elim (cut_space request.authorization) [
  | none ↦ false
  | some (scheme, presented) ↦
      text_eq (to_lower scheme) (bytes "bearer")
      && not (text_eq presented [])
      && all (λ c. not (is_blank c)) presented
      && text_eq (sha256 presented) digest
]

-- strings.HasSuffix and strings.TrimSuffix
abbrev pub has_suffix : Text → Text → Bool
has_suffix s suffix =
    leb (length suffix) (length s) && text_eq (drop (length s - length suffix) s) suffix

abbrev pub access_prefix : Text
access_prefix = bytes "/admin/pilot/access/"

abbrev pub revoke_suffix : Text
revoke_suffix = bytes "/revoke"

abbrev pub trim_suffix : Text → Text → Text
trim_suffix s suffix = if has_suffix s suffix then take (length s - length suffix) s else s

-- The identifier in the path of a revocation.
abbrev pub identifier_of : Text → Text
identifier_of path = trim_suffix (drop (length access_prefix) path) revoke_suffix

abbrev pub admin_headers : List (Text × Text)
admin_headers =
    header (bytes "Cache-Control") (bytes "no-store")
    ∷ header (bytes "Content-Security-Policy") (bytes "default-src 'none'; frame-ancestors 'none'")
    ∷ header (bytes "Referrer-Policy") (bytes "no-referrer")
    ∷ header (bytes "X-Content-Type-Options") (bytes "nosniff")
    ∷ []

-- The four targets of `ServeHTTP`.
pub data Target : Type 0 where
  at_access at_revocation at_results at_report nowhere : Target

unfoldable pub target_of : Bool → Text → Target
unfolding has_prefix
target_of has_telemetry path =
    if text_eq path (bytes "/admin/pilot/access")
    then at_access
    else if has_prefix path access_prefix && has_suffix path revoke_suffix
    then at_revocation
    else if text_eq path (bytes "/admin/pilot/test-results") && has_telemetry
    then at_results
    else if text_eq path (bytes "/admin/pilot/report") && has_telemetry
    then at_report
    else nowhere

-- `decodeStrict` after the first value.
unfoldable pub decode_body : {A : Type 0} → Result BodyFault (A × TrailingRead) → Result BodyFault A
decode_body (err fault) = err fault
decode_body (ok (value, at_end)) = ok value
decode_body (ok (value, another_value)) = err malformed
decode_body (ok (value, trailing_fault fault)) = err fault
