-- ===== src/PilotApi/Handler.antt =====
-- The handlers of internal/pilotapi/handler.go.
use virtual_cloud_help_servi.Prelude.{
  ℕ, Bool, true, false, not, ◌||◌, List, [], ◌∷◌, ◌++◌, none, some, all, ◌==◌, if◌then◌else◌,
  Result, ok, err,
}
use virtual_cloud_help_servi.Prelude.Text.{Text, bytes, text_eq}
use virtual_cloud_help_servi.Http.{
  HttpRequest, HttpResponse, header, is_method, method_get, method_post,
}
use virtual_cloud_help_servi.PilotApi.{
  ServiceFault, is_invalid, is_not_found, is_conflict, deadline_exceeded, other_error, BodyFault,
  too_large, malformed, TrailingRead, Wire, Services, authorized, identifier_of, admin_headers,
  target_of, decode_body, at_access, at_revocation, at_results, at_report, nowhere,
}

module _ {M : Type 0} (wire : Wire M) where
  unfoldable pub write_json : ℕ → List (Text × Text) → Text → HttpResponse
  write_json status more body = record {
    status = status;
    headers = header (bytes "Content-Type") (bytes "application/json") ∷ more ++ admin_headers;
    body = body;
  }

  unfoldable pub fail : ℕ → Text → HttpResponse
  unfolding write_json
  fail status message = write_json status [] (wire.write_error message)

  unfoldable pub service_error : ServiceFault → HttpResponse
  unfolding fail
  service_error is_invalid = fail 400 (bytes "invalid pilot metadata")
  service_error is_not_found = fail 404 (bytes "access not found")
  service_error is_conflict = fail 409 (bytes "record already exists")
  service_error deadline_exceeded = fail 503 (bytes "service temporarily unavailable")
  service_error other_error = fail 500 (bytes "internal error")

  unfoldable pub body_error : BodyFault → HttpResponse
  unfolding fail
  body_error too_large = fail 413 (bytes "request too large")
  body_error malformed = fail 400 (bytes "invalid request")

  abbrev pub wrong_method : Text → HttpResponse
  wrong_method allowed =
      write_json 405 (header (bytes "Allow") allowed ∷ [])
        (wire.write_error (bytes "method not allowed"))

  -- The checks that `register` and `recordTestResult` share, and what the body then is.
  unfoldable pub read_post :
      {A : Type 0}
      → (Text → Result BodyFault (A × TrailingRead))
      → HttpRequest
      → Result HttpResponse A
  unfolding decode_body body_error
  read_post read request =
      if not (is_method method_post request)
      then err (wrong_method method_post)
      else elim (wire.media_type request.content_type) [
        | none ↦ err (fail 415 (bytes "Content-Type must be application/json"))
        | some media ↦
            if not (text_eq media (bytes "application/json"))
            then err (fail 415 (bytes "Content-Type must be application/json"))
            else elim (decode_body (read request.body)) [
              | err fault ↦ err (body_error fault)
              | ok input ↦ ok input
            ]
      ]

  -- The answer to what a service returned.
  unfoldable pub answer :
      {S A : Type 0} → ℕ → (A → Text) → S × Result ServiceFault A → S × HttpResponse
  unfolding service_error
  answer status write (s, err fault) = (s, service_error fault)
  answer status write (s, ok value) = (s, write_json status [] (write value))

  -- A handler that posts a body to a service.
  unfoldable pub post :
      {S A B : Type 0}
      → (Text → Result BodyFault (A × TrailingRead))
      → (S → A → S × Result ServiceFault B)
      → (B → Text)
      → S
      → HttpRequest
      → S × HttpResponse
  unfolding read_post answer
  post read call write s request = elim (read_post read request) [
    | err refusal ↦ (s, refusal)
    | ok input ↦ answer 201 write (call s input)
  ]

  module _ {S : Type 0} (services : Services S M) where
    unfoldable pub revoke_handler : S → HttpRequest → S × HttpResponse
    unfolding answer
    revoke_handler s request =
        let identifier = identifier_of request.path in
        let revoked = answer 200 wire.write_access (services.revoke s identifier) in
        if not (is_method method_post request)
        then (s, wrong_method method_post)
        else if text_eq identifier [] || not (all (λ c. not (c == b'/')) identifier)
        then (s, fail 404 (bytes "not found"))
        else revoked

    unfoldable pub report_handler :
        (S → S × Result ServiceFault M) → S → HttpRequest → S × HttpResponse
    unfolding answer
    report_handler report s request =
        let reported = answer 200 wire.write_report (report s) in
        if not (is_method method_get request) then (s, wrong_method method_get) else reported

    abbrev pub has_telemetry : Bool
    has_telemetry = elim services.record_result [ none ↦ false | some call ↦ true ]

    unfoldable pub dispatch : S → HttpRequest → S × HttpResponse
    unfolding target_of post revoke_handler report_handler
    dispatch s request = elim (target_of has_telemetry request.path) [
      | at_access ↦ post wire.read_register services.register wire.write_access s request
      | at_revocation ↦ revoke_handler s request
      | at_results ↦ elim services.record_result [
        | none ↦ (s, fail 404 (bytes "not found"))
        | some call ↦ post wire.read_result call wire.write_result s request
      ]
      | at_report ↦ elim services.report [
        | none ↦ (s, fail 404 (bytes "not found"))
        | some report ↦ report_handler report s request
      ]
      | nowhere ↦ (s, fail 404 (bytes "not found"))
    ]

    abbrev pub unauthorized : HttpResponse
    unauthorized =
        write_json 401
          (header (bytes "WWW-Authenticate") (bytes "Bearer realm=\"pilot-admin\"") ∷ [])
          (wire.write_error (bytes "unauthorized"))

    unfoldable pub serve_admin : Text → S → HttpRequest → S × HttpResponse
    unfolding authorized dispatch
    serve_admin digest s request =
        let dispatched = dispatch s request in
        if authorized wire.sha256 digest request then dispatched else (s, unauthorized)
