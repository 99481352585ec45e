-- ===== src/Config.antt =====
-- internal/config/config.go: the configuration from the environment. What Go's library reads from a
-- text is a parameter; a negative duration or number counts as 0, which the bounds refuse alike.
pub mod Accepted
use virtual_cloud_help_servi.Prelude.{
  ℕ, ◌*◌, ◌/◌, Bool, true, false, not, ◌&&◌, ◌||◌, List, [], ◌∷◌, Option, none, some, ltb, ◌==◌,
  length, if◌then◌else◌, Result, ok, err, reject, or_fail, ◌>>=◌, ◌>>◌,
}
use virtual_cloud_help_servi.Prelude.Text.{Text, bytes, text_eq}
use virtual_cloud_help_servi.GoTime.{Duration, second, minute, hour}
use virtual_cloud_help_servi.PilotAccess.{has_part}
use virtual_cloud_help_servi.VpnNode.Provider.{Address}

abbrev pub default_manifest_ttl : Duration
default_manifest_ttl = 15 * minute

abbrev pub default_manifest_cache : Duration
default_manifest_cache = 30 * second

abbrev pub default_shutdown : Duration
default_shutdown = 10 * second

abbrev pub default_max_in_flight : ℕ
default_max_in_flight = 64

pub record Environment : Type 0 where
  -- os.Getenv: a variable that is not set is the empty text
  pub getenv : Text → Text
  pub trim_space : Text → Text
  pub to_lower : Text → Text
  pub parse_duration : Text → Option Duration
  -- strconv.Atoi
  pub atoi : Text → Option ℕ
  -- the host of net.SplitHostPort, net.ParseIP, and strings.EqualFold(host, "localhost")
  pub split_host : Text → Option Text
  pub parse_ip : Text → Option Address
  pub is_localhost : Text → Bool

pub data ConfigFault : Type 0 where
  unreadable : Text → ConfigFault
  manifest_ttl_range manifest_cache_range shutdown_range max_in_flight_range : ConfigFault
  signing_key_required root_key_required key_policy_required state_required : ConfigFault
  database_and_token database_url_long token_length token_placeholder : ConfigFault
  listener_not_private : ConfigFault

pub record Config : Type 0 where
  pub listen_address : Text
  pub catalog_path : Text
  pub signing_key_path : Text
  pub root_key_path : Text
  pub key_policy_path : Text
  pub issuer_state_path : Text
  pub manifest_ttl : Duration
  pub manifest_cache : Duration
  pub shutdown : Duration
  pub max_in_flight : ℕ
  pub database_url : Text
  pub pilot_admin_token : Text
  pub pilot_access : Bool

pub record Numbers : Type 0 where
  pub ttl : Duration
  pub cache : Duration
  pub stop : Duration
  pub most : ℕ

module _ (env : Environment) where
  abbrev pub variable : Text → Text
  variable name = env.trim_space (env.getenv name)

  unfoldable pub string_from_environment : Text → Text → Text
  string_from_environment name fallback =
      if text_eq (variable name) [] then fallback else variable name

  unfoldable pub integer_from_environment : Text → ℕ → Result ConfigFault ℕ
  integer_from_environment name fallback =
      if text_eq (variable name) []
      then ok fallback
      else or_fail (env.atoi (variable name)) (unreadable name)

  unfoldable pub duration_from_environment : Text → Duration → Result ConfigFault Duration
  duration_from_environment name fallback =
      if text_eq (variable name) []
      then ok fallback
      else or_fail (env.parse_duration (variable name)) (unreadable name)

  unfoldable pub is_private_listener : Text → Bool
  is_private_listener address = elim (env.split_host address) [
    | none ↦ false
    | some host ↦ if env.is_localhost host then true else elim (env.parse_ip host) [
      | none ↦ false
      | some ip ↦ not ip.is_unspecified && (ip.is_loopback || ip.is_private)
    ]
  ]

  -- The texts of the configuration, before their checks.
  unfoldable pub read_config : Numbers → Config
  unfolding string_from_environment
  read_config numbers = record {
    listen_address = string_from_environment (bytes "LISTEN_ADDRESS") (bytes "127.0.0.1:8080");
    catalog_path =
        string_from_environment (bytes "MANIFEST_CATALOG_PATH") (bytes "config/nodes.json");
    signing_key_path = variable (bytes "MANIFEST_SIGNING_KEY_PATH");
    root_key_path = variable (bytes "MANIFEST_ROOT_PUBLIC_KEY_PATH");
    key_policy_path = variable (bytes "MANIFEST_KEY_POLICY_PATH");
    issuer_state_path = variable (bytes "MANIFEST_STATE_PATH");
    manifest_ttl = numbers.ttl;
    manifest_cache = numbers.cache;
    shutdown = numbers.stop;
    max_in_flight = numbers.most;
    database_url = variable (bytes "DATABASE_URL");
    pilot_admin_token = variable (bytes "PILOT_ADMIN_TOKEN");
    pilot_access = not (text_eq (variable (bytes "DATABASE_URL")) []);
  }

  abbrev pub is_set : Text → Bool
  is_set s = not (text_eq s [])

  -- The checks of the texts.
  unfoldable pub check_config : Config → Result ConfigFault (Unit {0})
  unfolding is_private_listener has_part
  check_config config = do
    reject (text_eq config.signing_key_path []) signing_key_required
    reject (text_eq config.root_key_path []) root_key_required
    reject (text_eq config.key_policy_path []) key_policy_required
    reject (text_eq config.issuer_state_path []) state_required
    reject
        (if is_set config.database_url
          then not (is_set config.pilot_admin_token)
          else is_set config.pilot_admin_token)
        database_and_token
    reject (ltb 2048 (length config.database_url)) database_url_long
    reject
        (is_set config.pilot_admin_token
          && (ltb (length config.pilot_admin_token) 32
              || ltb 512 (length config.pilot_admin_token)))
        token_length
    reject (has_part (env.to_lower config.pilot_admin_token) (bytes "replace-with"))
        token_placeholder
    reject (config.pilot_access && not (is_private_listener config.listen_address))
        listener_not_private

  -- The numbers of the configuration, within their bounds.
  unfoldable pub read_numbers : Result ConfigFault Numbers
  unfolding duration_from_environment integer_from_environment
  read_numbers = do
    ttl ← duration_from_environment (bytes "MANIFEST_TTL") default_manifest_ttl
    reject (ltb ttl minute || ltb hour ttl) manifest_ttl_range
    cache ← duration_from_environment (bytes "MANIFEST_CACHE_TTL") default_manifest_cache
    reject (ltb cache second || ltb (ttl / 2) cache) manifest_cache_range
    stop ← duration_from_environment (bytes "SHUTDOWN_TIMEOUT") default_shutdown
    reject (ltb stop second || ltb minute stop) shutdown_range
    most ← integer_from_environment (bytes "MAX_IN_FLIGHT") default_max_in_flight
    reject (ltb most 1 || ltb 1024 most) max_in_flight_range
    ok (record { ttl = ttl; cache = cache; stop = stop; most = most })

  unfoldable pub load_config : Result ConfigFault Config
  unfolding read_numbers read_config check_config
  load_config = do
    numbers ← read_numbers
    let config = read_config numbers
    check_config config
    ok config
