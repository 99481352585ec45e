-- ===== src/PilotApi/Requests.antt =====
-- What the tests of internal/pilotapi/handler.go on a request's token and path say of its text.
use virtual_cloud_help_servi.Prelude.{
  ℕ, Bool, zero, suc, ◌-◌, ◌≡◌, ◌∙◌, sym, refl, ap, true, false, ◌&&◌, [], ◌∷◌, ◌++◌, length, take,
  drop, some, Option-cases, Bool-cases, arith, ◌⊎◌, inl, inr, ◌==◌, if◌then◌else◌,
}
use virtual_cloud_help_servi.Prelude.Text.{Text, bytes, text_eq, text_eq_iff}
use virtual_cloud_help_servi.Http.{HttpRequest}
use virtual_cloud_help_servi.PilotAccess.{to_lower, has_prefix}
use virtual_cloud_help_servi.PilotApi.{
  access_prefix, revoke_suffix, Target, target_of, at_access, at_revocation, at_results, at_report,
  nowhere, cut_space, authorized, has_suffix, identifier_of,
}

-- The request carries a token of this digest.
pub record Presents (sha256 : Text → Text) (digest : Text) (request : HttpRequest) : Type 0 where
  pub scheme : Text
  pub presented : Text
  pub header : request.authorization ≡ scheme ++ bytes " " ++ presented
  pub bearer : to_lower scheme ≡ bytes "bearer"
  pub digest_is : sha256 presented ≡ digest

cut_space-joins :
    (s : Text) {scheme presented : Text}
    → cut_space s ≡ some (scheme, presented)
    → s ≡ scheme ++ bytes " " ++ presented
unfolding cut_space
cut_space-joins [] h = absurd (ground arith)
cut_space-joins (c ∷ cs) {scheme} {presented} h = elim (Bool-cases (c == 32)) [
  | inl space ↦
      let c_is : c ≡ 32 = ground (arith, space) in
      let s_is : scheme ≡ [] = ground (arith, space) in
      let p_is : presented ≡ cs = ground (arith, space) in rw (c_is, s_is, p_is) refl
  | inr other ↦ elim (Option-cases (cut_space cs)) [
    | inl missing ↦ absurd (ground (arith, missing, other))
    | inr ((before, after), found) ↦
        let s_is : scheme ≡ c ∷ before = ground (arith, other, found) in
        let p_is : presented ≡ after = ground (arith, other, found) in
        rw (s_is, p_is)
          (ap (λ (r : Text). c ∷ r)
            (cut_space-joins cs {scheme = before} {presented = after} found))
  ]
]

pub authorized-Presents :
    (sha256 : Text → Text) (digest : Text) (request : HttpRequest)
    → authorized sha256 digest request ≡ true
    → Presents sha256 digest request
unfolding authorized
authorized-Presents sha256 digest request h =
    elim (Option-cases (cut_space request.authorization)) [
      | inl missing ↦ absurd (ground (arith, missing))
      | inr ((scheme, presented), found) ↦ record {
        scheme = scheme;
        presented = presented;
        header =
            cut_space-joins request.authorization {scheme = scheme} {presented = presented} found;
        bearer = ground (arith, found, text_eq_iff (to_lower scheme) (bytes "bearer"));
        digest_is = ground (arith, found, text_eq_iff (sha256 presented) digest);
      }
    ]

take-append-drop : (n : ℕ) (s : Text) → take n s ++ drop n s ≡ s
take-append-drop zero s = refl
take-append-drop (suc n) [] = refl
take-append-drop (suc n) (c ∷ s) = ap (λ (r : Text). c ∷ r) (take-append-drop n s)

has_prefix-joins :
    (s prefix : Text) → has_prefix s prefix ≡ true → s ≡ prefix ++ drop (length prefix) s
unfolding has_prefix
has_prefix-joins s [] h = refl
has_prefix-joins [] (c ∷ prefix) h = absurd (ground arith)
has_prefix-joins (d ∷ s) (c ∷ prefix) h =
    let first : d ≡ c = ground arith in
    let rest : has_prefix s prefix ≡ true = ground arith in
    rw first (ap (λ (r : Text). c ∷ r) (has_prefix-joins s prefix rest))

has_suffix-joins :
    (s suffix : Text) → has_suffix s suffix ≡ true → s ≡ take (length s - length suffix) s ++ suffix
has_suffix-joins s suffix h =
    let n = length s - length suffix in
    let same : drop n s ≡ suffix = ground (arith, text_eq_iff (drop n s) suffix) in
    sym (take-append-drop n s) ∙ ap (λ (r : Text). take n s ++ r) same

-- The identifier of a revocation's path. In `/admin/pilot/access/revoke` the two parts share their
-- slash, and the identifier is `revoke`.
abbrev pub IsRevocation : Text → Text → Type 0
IsRevocation path id =
    (path ≡ bytes "/admin/pilot/access/" ++ id ++ bytes "/revoke")
    ⊎ (path ≡ bytes "/admin/pilot/access/" ++ id)
      × (has_suffix path (bytes "/revoke") ≡ true)
      × (has_suffix id (bytes "/revoke") ≡ false)

identifier_of-IsRevocation :
    (path : Text)
    → has_prefix path (bytes "/admin/pilot/access/") ≡ true
    → has_suffix path (bytes "/revoke") ≡ true
    → IsRevocation path (identifier_of path)
identifier_of-IsRevocation path starts ends = by_suffix (has_suffix rest (bytes "/revoke")) refl
  where
    rest : Text
    rest = drop 20 path

    by_suffix :
        (cut : Bool)
        → has_suffix rest (bytes "/revoke") ≡ cut
        → IsRevocation path (if cut then take (length rest - 7) rest else rest)
    by_suffix true e = inl (
        has_prefix-joins path (bytes "/admin/pilot/access/") starts
        ∙ ap (λ (r : Text). bytes "/admin/pilot/access/" ++ r)
            (has_suffix-joins rest (bytes "/revoke") e))
    by_suffix false e = inr (has_prefix-joins path (bytes "/admin/pilot/access/") starts, ends, e)

-- What the target says of the path.
abbrev pub Routed : Target → Text → Type 0
Routed at_access path = path ≡ bytes "/admin/pilot/access"
Routed at_revocation path = IsRevocation path (identifier_of path)
Routed at_results path = path ≡ bytes "/admin/pilot/test-results"
Routed at_report path = path ≡ bytes "/admin/pilot/report"
Routed nowhere path = Unit {0}

pub target_of-Routed : (telemetry : Bool) (path : Text) → Routed (target_of telemetry path) path
unfolding target_of
target_of-Routed telemetry path =
    by_tests (text_eq path (bytes "/admin/pilot/access")) refl
      (has_prefix path access_prefix && has_suffix path revoke_suffix) refl
      (text_eq path (bytes "/admin/pilot/test-results") && telemetry) refl
      (text_eq path (bytes "/admin/pilot/report") && telemetry) refl
  where
    by_tests :
        (access : Bool)
        → text_eq path (bytes "/admin/pilot/access") ≡ access
        → (revocation : Bool)
        → has_prefix path access_prefix && has_suffix path revoke_suffix ≡ revocation
        → (results : Bool) → text_eq path (bytes "/admin/pilot/test-results") && telemetry ≡ results
        → (report : Bool) → text_eq path (bytes "/admin/pilot/report") && telemetry ≡ report
        → Routed
            (if access
              then at_access
              else if revocation
              then at_revocation
              else if results
              then at_results
              else if report
              then at_report
              else nowhere)
            path
    by_tests true e revocation v results r report p =
        (text_eq_iff path (bytes "/admin/pilot/access")).0 e
    by_tests false e true v results r report p =
        identifier_of-IsRevocation path (ground (arith, v)) (ground (arith, v))
    by_tests false e false v true r report p =
        (text_eq_iff path (bytes "/admin/pilot/test-results")).0 (ground (arith, r))
    by_tests false e false v false r true p =
        (text_eq_iff path (bytes "/admin/pilot/report")).0 (ground (arith, p))
    by_tests false e false v false r false p = tt
