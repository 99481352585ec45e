-- ===== src/PilotApi/Guard.antt =====
-- What a request to the pilot's administration can change.
use virtual_cloud_help_servi.Prelude.{
  ℕ, ◌≡◌, refl, Bool, true, false, not, ◌||◌, [], Option, none, some, Result, ok, err, arith, ◌⊎◌,
  inl, inr, if◌then◌else◌, all, ◌==◌,
}
use virtual_cloud_help_servi.Prelude.Text.{Text, bytes, text_eq, text_eq_iff}
use virtual_cloud_help_servi.PilotAccess.{RegisterInput}
use virtual_cloud_help_servi.PilotTelemetry.{TestResult, RecordInput}
use virtual_cloud_help_servi.Http.{HttpRequest, HttpResponse, is_method, method_get, method_post}
use virtual_cloud_help_servi.PilotApi.Requests.{
  IsRevocation, Routed, target_of-Routed, Presents, authorized-Presents,
}
use virtual_cloud_help_servi.PilotApi.{
  at_end, decode_body, ServiceFault, BodyFault, TrailingRead, Wire, Services, authorized,
  identifier_of, Target, target_of, at_access, at_revocation, at_results, at_report, nowhere,
}
use virtual_cloud_help_servi.PilotApi.Handler.{
  write_json, fail, read_post, answer, post, revoke_handler, report_handler, has_telemetry,
  dispatch, unauthorized, serve_admin, wrong_method,
}

-- A POST to the path whose body is this value and nothing else.
pub record Posted {A : Type 0} (read : Text → Result BodyFault (A × TrailingRead)) (path : Text)
    (request : HttpRequest) (input : A) : Type 0 where
  pub path_is : request.path ≡ path
  pub method_is : request.method ≡ bytes "POST"
  pub body_is : read request.body ≡ ok (input, at_end)

-- What a request does to the state: nothing, or one call of one service, by the path, the method
-- and the body that are right for it.
pub data Effect {S M : Type 0} (wire : Wire M) (services : Services S M) (request : HttpRequest)
    (s out : S) : Type 0 where
  no_effect : out ≡ s → Effect wire services request s out
  registers :
      (input : RegisterInput)
      → Posted wire.read_register (bytes "/admin/pilot/access") request input
      → out ≡ (services.register s input).0
      → Effect wire services request s out
  revokes :
      (id : Text)
      → IsRevocation request.path id
      → request.method ≡ bytes "POST"
      → out ≡ (services.revoke s id).0
      → Effect wire services request s out
  records :
      (call : S → RecordInput → S × Result ServiceFault TestResult) (input : RecordInput)
      → services.record_result ≡ some call
      → Posted wire.read_result (bytes "/admin/pilot/test-results") request input
      → out ≡ (call s input).0
      → Effect wire services request s out
  reports :
      (report : S → S × Result ServiceFault M)
      → services.report ≡ some report
      → request.path ≡ bytes "/admin/pilot/report"
      → request.method ≡ bytes "GET"
      → out ≡ (report s).0
      → Effect wire services request s out

module _ {M : Type 0} (wire : Wire M) where
  answer-state :
      {S A : Type 0} (status : ℕ) (write : A → Text) (out : S × Result ServiceFault A)
      → (answer wire status write out).0 ≡ out.0
  unfolding answer
  answer-state status write (s, err fault) = refl
  answer-state status write (s, ok value) = refl

  decode_body-at_end :
      {A : Type 0} (read : Result BodyFault (A × TrailingRead)) {input : A}
      → decode_body read ≡ ok input
      → read ≡ ok (input, at_end)
  unfolding decode_body
  decode_body-at_end read h = ground arith

  read_post-Posted :
      {A : Type 0} (read : Text → Result BodyFault (A × TrailingRead)) (request : HttpRequest)
      {path : Text} {input : A}
      → request.path ≡ path
      → read_post wire read request ≡ ok input
      → Posted read path request input
  unfolding read_post
  read_post-Posted read request {path} {input} at h =
      let decoded : decode_body (read request.body) ≡ ok input = ground arith in
      record {
        path_is = at;
        method_is = ground (arith, text_eq_iff request.method method_post);
        body_is = decode_body-at_end (read request.body) {input = input} decoded;
      }

  -- A post leaves the state alone or calls the service with what it read.
  post-state :
      {S A B : Type 0} (read : Text → Result BodyFault (A × TrailingRead))
      (call : S → A → S × Result ServiceFault B) (write : B → Text) (s : S) (request : HttpRequest)
      {path : Text}
      → request.path ≡ path
      → ((post wire read call write s request).0 ≡ s)
        ⊎ (input : A) × Posted read path request input
          × ((post wire read call write s request).0 ≡ (call s input).0)
  unfolding post
  post-state {S = S} {A = A} read call write s request {path} at =
      by_body (read_post wire read request) refl
    where
      by_body :
          (body : Result HttpResponse A)
          → read_post wire read request ≡ body
          → (let out : S × HttpResponse = elim body [
            | err refusal ↦ (s, refusal)
            | ok input ↦ answer wire 201 write (call s input)
          ] in
              (out.0 ≡ s)
              ⊎ (input : A) × Posted read path request input × (out.0 ≡ (call s input).0))
      by_body (err refusal) e = inl refl
      by_body (ok input) e = inr (
        input,
        read_post-Posted read request {input = input} at e,
        answer-state 201 write (call s input),
      )

  module _ {S : Type 0} (services : Services S M) (s : S) (request : HttpRequest) where
    revoke_handler-Effect :
        IsRevocation request.path (identifier_of request.path)
        → Effect wire services request s (revoke_handler wire services s request).0
    unfolding revoke_handler
    revoke_handler-Effect path =
        by_tests (is_method method_post request) refl
          (text_eq identifier [] || not (all (λ c. not (c == b'/')) identifier))
      where
        identifier : Text
        identifier = identifier_of request.path

        by_tests :
            (posted : Bool)
            → is_method method_post request ≡ posted
            → (refused : Bool)
            → (let out : S × HttpResponse =
                  if not posted
                  then (s, wrong_method wire method_post)
                  else if refused
                  then (s, fail wire 404 (bytes "not found"))
                  else answer wire 200 wire.write_access (services.revoke s identifier) in
                Effect wire services request s out.0)
        by_tests false e refused = no_effect refl
        by_tests true e true = no_effect refl
        by_tests true e false =
            revokes identifier path ((text_eq_iff request.method method_post).0 e)
              (answer-state 200 wire.write_access (services.revoke s identifier))

    report_handler-Effect :
        (report : S → S × Result ServiceFault M)
        → services.report ≡ some report
        → request.path ≡ bytes "/admin/pilot/report"
        → Effect wire services request s (report_handler wire services report s request).0
    unfolding report_handler
    report_handler-Effect report has path = by_method (is_method method_get request) refl
      where
        by_method :
            (got : Bool)
            → is_method method_get request ≡ got
            → (let out : S × HttpResponse =
                  if not got
                  then (s, wrong_method wire method_get)
                  else answer wire 200 wire.write_report (report s) in
                Effect wire services request s out.0)
        by_method false e = no_effect refl
        by_method true e =
            reports report has path ((text_eq_iff request.method method_get).0 e)
              (answer-state 200 wire.write_report (report s))

    results-Effect :
        (telemetry : Option (S → RecordInput → S × Result ServiceFault TestResult))
        → services.record_result ≡ telemetry
        → request.path ≡ bytes "/admin/pilot/test-results"
        → (let out : S × HttpResponse = elim telemetry [
          | none ↦ (s, fail wire 404 (bytes "not found"))
          | some call ↦ post wire wire.read_result call wire.write_result s request
        ] in
            Effect wire services request s out.0)
    results-Effect none e path = no_effect refl
    results-Effect (some call) e path =
        elim (post-state wire.read_result call wire.write_result s request path) [
          | inl same ↦ no_effect same
          | inr (input, posted, called) ↦ records call input e posted called
        ]

    reports-Effect :
        (reporting : Option (S → S × Result ServiceFault M))
        → services.report ≡ reporting
        → request.path ≡ bytes "/admin/pilot/report"
        → (let out : S × HttpResponse = elim reporting [
          | none ↦ (s, fail wire 404 (bytes "not found"))
          | some report ↦ report_handler wire services report s request
        ] in
            Effect wire services request s out.0)
    reports-Effect none e path = no_effect refl
    reports-Effect (some report) e path = report_handler-Effect report e path

    dispatch-Effect : Effect wire services request s (dispatch wire services s request).0
    unfolding dispatch
    dispatch-Effect =
        by_target (target_of (has_telemetry wire services) request.path)
          (target_of-Routed (has_telemetry wire services) request.path)
      where
        by_target :
            (target : Target)
            → Routed target request.path
            → (let out : S × HttpResponse = elim target [
              | at_access ↦
                  post wire wire.read_register services.register wire.write_access s request
              | at_revocation ↦ revoke_handler wire services s request
              | at_results ↦ elim services.record_result [
                | none ↦ (s, fail wire 404 (bytes "not found"))
                | some call ↦ post wire wire.read_result call wire.write_result s request
              ]
              | at_report ↦ elim services.report [
                | none ↦ (s, fail wire 404 (bytes "not found"))
                | some report ↦ report_handler wire services report s request
              ]
              | nowhere ↦ (s, fail wire 404 (bytes "not found"))
            ] in
                Effect wire services request s out.0)
        by_target at_access path =
            elim (post-state wire.read_register services.register wire.write_access s request
              path) [
                | inl same ↦ no_effect same
                | inr (input, posted, called) ↦ registers input posted called
              ]
        by_target at_revocation path = revoke_handler-Effect path
        by_target at_results path = results-Effect services.record_result refl path
        by_target at_report path = reports-Effect services.report refl path
        by_target nowhere path = no_effect refl

    -- A request has at most one effect: one call of one service by the path, the method and the
    -- body that are right for it. It carries a bearer token whose SHA-256 is the digest, or it
    -- changes nothing and is answered 401.
    pub serve_admin-Effect :
        (digest : Text)
        → let out = serve_admin wire services digest s request in
          Effect wire services request s out.0
          × (Presents wire.sha256 digest request ⊎ (out.0 ≡ s) × (out.1.status ≡ 401))
    unfolding serve_admin write_json
    serve_admin-Effect digest = by_token (authorized wire.sha256 digest request) refl
      where
        by_token :
            (good : Bool)
            → authorized wire.sha256 digest request ≡ good
            → (let out : S × HttpResponse =
                  if good
                  then dispatch wire services s request
                  else (s, unauthorized wire services) in
                Effect wire services request s out.0
                × (Presents wire.sha256 digest request ⊎ (out.0 ≡ s) × (out.1.status ≡ 401)))
        by_token true e = (dispatch-Effect, inl (authorized-Presents wire.sha256 digest request e))
        by_token false e = (no_effect refl, inr (refl, refl))
