-- ===== src/Api.antt =====
-- internal/api/handler.go: the public endpoints and the limit on the requests in flight. A request
-- that needs an issued manifest takes a slot when it arrives and gives it back when it is answered;
-- between the two other requests arrive and are answered in any order.
pub mod Flow
use virtual_cloud_help_servi.Prelude.{
  ℕ, suc, Bool, true, false, not, ◌&&◌, ◌||◌, List, [], ◌∷◌, ◌++◌, Option, none, some, ltb, ◌==◌,
  length, all, if◌then◌else◌,
}
use virtual_cloud_help_servi.Prelude.Text.{Text, bytes, text_eq}
use virtual_cloud_help_servi.PilotAccess.{has_prefix}
use virtual_cloud_help_servi.Http.{
  HttpRequest, HttpResponse, header, is_method, method_get, method_head,
}
use virtual_cloud_help_servi.Manifest.Types.{Envelope}

abbrev pub security_headers : List (Text × Text)
security_headers =
    header (bytes "Content-Security-Policy") (bytes "default-src 'none'; frame-ancestors 'none'")
    ∷ header (bytes "Referrer-Policy") (bytes "no-referrer")
    ∷ header (bytes "X-Content-Type-Options") (bytes "nosniff")
    ∷ []

abbrev pub no_store : Text × Text
no_store = header (bytes "Cache-Control") (bytes "no-store")

abbrev pub allows_read : HttpRequest → Bool
allows_read request = is_method method_get request || is_method method_head request

unfoldable pub write_text : HttpRequest → ℕ → List (Text × Text) → Text → HttpResponse
write_text request status more body = record {
  status = status;
  headers =
      header (bytes "Content-Type") (bytes "text/plain; charset=utf-8") ∷ no_store ∷ more
      ++ security_headers;
  body = if is_method method_head request then [] else body;
}

-- The answer of `allowReadMethod` to another method; http.Error sets the other headers.
abbrev pub method_not_allowed : HttpResponse
method_not_allowed = record {
  status = 405;
  headers = header (bytes "Allow") (bytes "GET, HEAD") ∷ security_headers;
  body = bytes "method not allowed\n";
}

abbrev pub busy : HttpRequest → HttpResponse
busy request =
    write_text request 503 (header (bytes "Retry-After") (bytes "1") ∷ []) (bytes "busy\n")

unfoldable pub health : HttpRequest → HttpResponse
unfolding write_text
health request =
    if allows_read request then write_text request 200 [] (bytes "ok\n") else method_not_allowed

-- `issued` is what `issue` returned, and `checks` whether each readiness check passed.
unfoldable pub ready_answer : HttpRequest → Option Envelope → List Bool → HttpResponse
unfolding write_text all
ready_answer request none checks = write_text request 503 [] (bytes "not ready\n")
ready_answer request (some envelope) checks =
    if all (λ passed. passed) checks
    then write_text request 200 [] (bytes "ready\n")
    else write_text request 503 [] (bytes "not ready\n")

-- `encode` is json.NewEncoder(...).Encode.
unfoldable pub manifest_answer : (Envelope → Text) → HttpRequest → Option Envelope → HttpResponse
unfolding write_text
manifest_answer encode request none = write_text request 503 [] (bytes "manifest unavailable\n")
manifest_answer encode request (some envelope) = record {
  status = 200;
  headers = header (bytes "Content-Type") (bytes "application/json") ∷ no_store ∷ security_headers;
  body = if is_method method_head request then [] else encode envelope;
}

-- Where the mux sends a request.
pub data Route : Type 0 where
  to_health to_ready to_manifest to_admin to_nothing : Route

unfoldable pub route_of : Bool → Text → Route
unfolding has_prefix
route_of has_admin path =
    if text_eq path (bytes "/healthz")
    then to_health
    else if text_eq path (bytes "/readyz")
    then to_ready
    else if text_eq path (bytes "/v1/manifest")
    then to_manifest
    else if has_admin && has_prefix path (bytes "/admin/pilot/")
    then to_admin
    else to_nothing

-- A request that holds a slot.
pub record InFlight : Type 0 where
  pub number : ℕ
  pub request : HttpRequest
  pub is_ready : Bool  -- for /readyz rather than /v1/manifest

pub record Server : Type 0 where
  pub max_in_flight : ℕ
  pub in_flight : List InFlight

-- `newHandler`: the least limit is 1.
unfoldable pub new_handler : ℕ → Server
new_handler max_in_flight = record {
  max_in_flight = if ltb max_in_flight 1 then 1 else max_in_flight;
  in_flight = [];
}

-- The `select` of `acquire`: a slot, or the answer that the server is busy.
unfoldable pub acquire : Server → InFlight → Server × Option HttpResponse
acquire server entering =
    if ltb (length server.in_flight) server.max_in_flight
    then (record server { in_flight = entering ∷ server.in_flight }, none)
    else (server, some (busy entering.request))

-- The handlers `ready` and `manifest`, until they have a slot.
unfoldable pub enter : Server → InFlight → Server × Option HttpResponse
unfolding acquire
enter server entering =
    let acquired = acquire server entering in
    if allows_read entering.request then acquired else (server, some method_not_allowed)

-- What runs concurrently, as a sequence: request `number` arrives, or the handler that holds its
-- slot comes to its end.
pub data Event : Type 0 where
  arrive : ℕ → HttpRequest → Event
  finish : ℕ → Option Envelope → List Bool → Event

-- The other handlers answer at once: `admin` is the pilot's handler, and the mux answers 404.
abbrev pub not_found_answer : HttpResponse
not_found_answer = record {
  status = 404;
  headers = security_headers;
  body = bytes "404 page not found\n";
}

unfoldable pub arrival :
    Option (HttpRequest → HttpResponse) → Server → ℕ → HttpRequest → Server × Option HttpResponse
unfolding health route_of enter
arrival none server number request = elim (route_of false request.path) [
  | to_health ↦ (server, some (health request))
  | to_ready ↦ enter server (record { number = number; request = request; is_ready = true })
  | to_manifest ↦ enter server (record { number = number; request = request; is_ready = false })
  | to_admin ↦ (server, some not_found_answer)
  | to_nothing ↦ (server, some not_found_answer)
]
arrival (some admin) server number request = elim (route_of true request.path) [
  | to_health ↦ (server, some (health request))
  | to_ready ↦ enter server (record { number = number; request = request; is_ready = true })
  | to_manifest ↦ enter server (record { number = number; request = request; is_ready = false })
  | to_admin ↦ (server, some (admin request))
  | to_nothing ↦ (server, some not_found_answer)
]

-- The request of a number that holds a slot, and the others: its `release`.
unfoldable pub take_out_number : ℕ → List InFlight → Option (InFlight × List InFlight)
take_out_number number [] = none
take_out_number number (x ∷ xs) =
    let rest = take_out_number number xs in
    if x.number == number
    then some (x, xs)
    else elim rest [ none ↦ none | some (found, others) ↦ some (found, x ∷ others) ]

unfoldable pub answer_of : (Envelope → Text) → InFlight → Option Envelope → List Bool → HttpResponse
unfolding ready_answer manifest_answer
answer_of encode holder issued checks =
    if holder.is_ready
    then ready_answer holder.request issued checks
    else manifest_answer encode holder.request issued

unfoldable pub handle :
    (Envelope → Text)
    → Option (HttpRequest → HttpResponse)
    → Server
    → Event
    → Server × Option HttpResponse
unfolding arrival take_out_number answer_of
handle encode admin server (arrive number request) = arrival admin server number request
handle encode admin server (finish number issued checks) =
    elim (take_out_number number server.in_flight) [
      | none ↦ (server, none)
      | some (holder, others) ↦
          (record server { in_flight = others }, some (answer_of encode holder issued checks))
    ]
