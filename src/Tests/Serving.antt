-- ===== src/Tests/Serving.antt =====
-- Requests to the public and the administrative endpoints, and a configuration.
use virtual_cloud_help_servi.Prelude.{
  ◌+◌, ◌*◌, ◌≤◌, ◌≡◌, ◌⊎◌, refl, true, false, not, List, [], ◌∷◌, none, some, ok, err, ◌-◌, length,
  all, drop, if◌then◌else◌,
}
use virtual_cloud_help_servi.Prelude.Text.{Text, bytes, text_eq}
use virtual_cloud_help_servi.GoTime.{second, minute}
use virtual_cloud_help_servi.Http.{HttpRequest, method_get, method_post}
use virtual_cloud_help_servi.Manifest.Types.{Envelope}
use virtual_cloud_help_servi.Manifest.KeyPolicy.{validate_key_policy}
use virtual_cloud_help_servi.Issuer.Start.{IssuerOptions, check_options}
use virtual_cloud_help_servi.PilotAccess.{has_prefix, has_part}
use virtual_cloud_help_servi.Api.{Event, arrive, finish, new_handler}
use virtual_cloud_help_servi.Api.Flow.{handle_all, arrivals_of, handle_all-in_flight}
use virtual_cloud_help_servi.PilotApi.{Wire, token_digest, is_blank, at_end, too_large}
use virtual_cloud_help_servi.PilotApi.Handler.{serve_admin}
use virtual_cloud_help_servi.PilotApi.Requests.{Presents}
use virtual_cloud_help_servi.PilotApi.Guard.{Effect, serve_admin-Effect}
use virtual_cloud_help_servi.PilotApi.Pilot.{AdminCall, access_services}
use virtual_cloud_help_servi.Config.{
  Environment, Config, load_config, read_config, read_numbers, check_config,
  duration_from_environment, integer_from_environment, string_from_environment, is_private_listener,
}
use virtual_cloud_help_servi.Config.Accepted.{load_config-accepted}
use virtual_cloud_help_servi.Tests.Manifests.{
  manifest_run, sample, sample_policy, root_public, key_a, sample_envelope,
}
use virtual_cloud_help_servi.Tests.Accesses.{decoders, empty, input, access_id, committed_calls}

abbrev get_manifest : HttpRequest
get_manifest = record {
  method = method_get;
  path = bytes "/v1/manifest";
  authorization = [];
  content_type = [];
  body = [];
}

abbrev encode : Envelope → Text
encode envelope = envelope.payload

-- The third request finds both slots taken; then the first is answered.
abbrev three_requests : List Event
three_requests =
    arrive 1 get_manifest
    ∷ arrive 2 get_manifest
    ∷ arrive 3 get_manifest
    ∷ finish 1 (some (sample_envelope 5 key_a)) []
    ∷ []

handle_all-in_flight_example :
    (let out = handle_all encode none (new_handler 2) three_requests in
      ((length out.0.in_flight ≤ 2) ⊎ (length out.0.in_flight ≤ 1))
      × (arrivals_of three_requests ≡ length out.0.in_flight + out.1))
handle_all-in_flight_example = handle_all-in_flight encode none 2 three_requests

abbrev token : Text
token = bytes "0123456789abcdef0123456789abcdef"

abbrev wire : Wire Text
wire = record {
  sha256 = λ s. s;
  media_type = λ s. some s;
  read_register = λ body. ok (input, at_end);
  read_result = λ body. err too_large;
  write_access = λ a. a.id;
  write_result = λ r. r.id;
  write_report = λ m. m;
  write_error = λ message. message;
}

abbrev post_access : Text → HttpRequest
post_access presented = record {
  method = method_post;
  path = bytes "/admin/pilot/access";
  authorization = presented;
  content_type = bytes "application/json";
  body = [];
}

abbrev call_with : Text → AdminCall
call_with presented = record {
  request = post_access presented;
  now = second + 5;
  new_id = some access_id;
  calls = committed_calls;
}

abbrev right_call : AdminCall
right_call = call_with (bytes "Bearer 0123456789abcdef0123456789abcdef")

serve_admin-Effect_example :
    (let out =
        serve_admin wire (access_services decoders right_call) token empty right_call.request in
      Effect wire (access_services {M = Text} decoders right_call) right_call.request empty out.0
      × (Presents wire.sha256 token right_call.request ⊎ (out.0 ≡ empty) × (out.1.status ≡ 401)))
serve_admin-Effect_example =
    serve_admin-Effect wire (access_services decoders right_call) empty right_call.request token

-- Every path is set to its own name, and the other variables are not set.
abbrev getenv : Text → Text
getenv name = if text_eq (drop (length name - 5) name) (bytes "_PATH") then name else []

abbrev env : Environment
env = record {
  getenv = getenv;
  trim_space = λ s. s;
  to_lower = λ s. s;
  parse_duration = λ s. none;
  atoi = λ s. none;
  split_host = λ s. some s;
  parse_ip = λ s. none;
  is_localhost = λ s. false;
}

unfoldable config_run : Unit {0}
unfolding text_eq load_config read_config read_numbers check_config has_part has_prefix
    duration_from_environment integer_from_environment string_from_environment is_private_listener
config_run = tt

abbrev config : Config
unfolding config_run
config =
    read_config env
      (record { ttl = 15 * minute; cache = 30 * second; stop = 10 * second; most = 64 })

config_loaded : load_config env ≡ ok config
unfolding config_run
config_loaded = refl

abbrev options : IssuerOptions
options = record {
  state_path = bytes "state";
  ttl = 15 * minute;
  cache_for = 30 * second;
  private_key = key_a;
  root_key = root_public;
  key_policy = sample_policy;
}

abbrev policy_digest : Text
policy_digest = sample.encode64 (sample.sha256 (1 ∷ []))

policy_valid : validate_key_policy sample sample_policy root_public ≡ ok policy_digest
unfolding manifest_run
policy_valid = refl

load_config-accepted_example :
    (check_options sample options ≡ ok policy_digest)
    × ((new_handler config.max_in_flight).max_in_flight ≡ config.max_in_flight)
    × (config.pilot_access ≡ true
        → (is_private_listener env config.listen_address ≡ true)
          × (all (λ c. not (is_blank c)) config.pilot_admin_token ≡ true
              → token_digest sample.sha256 env.to_lower config.pilot_admin_token
                ≡ ok (sample.sha256 config.pilot_admin_token)))
unfolding config_run
load_config-accepted_example =
    load_config-accepted env sample options config_loaded refl refl refl policy_valid
