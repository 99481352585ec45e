-- ===== src/Config/Accepted.antt =====
-- A configuration that is loaded is one that the parts it configures accept.
use virtual_cloud_help_servi.Prelude.{
  ◌/◌, ◌≤◌, ◌≡◌, refl, true, false, not, length, arith, Result, ok, err, ◌>>=◌, ap, ◌∙◌, all, [],
  ◌⊎◌,
}
use virtual_cloud_help_servi.Prelude.Text.{Text, bytes, text_eq}
use virtual_cloud_help_servi.GoTime.{second, minute, hour}
use virtual_cloud_help_servi.Platform.{Platform}
use virtual_cloud_help_servi.Manifest.KeyPolicy.{validate_key_policy}
use virtual_cloud_help_servi.Issuer.Start.{IssuerOptions, check_options}
use virtual_cloud_help_servi.Api.{new_handler}
use virtual_cloud_help_servi.PilotAccess.{has_part}
use virtual_cloud_help_servi.PilotApi.{token_digest, is_blank}
use virtual_cloud_help_servi.Config.{
  Environment, Config, load_config, check_config, read_config, Numbers, read_numbers,
  is_private_listener,
}

-- What a chain read that succeeds at last after its check.
checked-ok :
    {E N C : Type 0} (m : Result E N) (f : N → C) (check : C → Result E (Unit {0})) {x : C}
    → (m >>= λ n. check (f n) >>= λ _. ok (f n)) ≡ ok x
    → (n : N) × (m ≡ ok n) × (check x ≡ ok tt) × (f n ≡ x)
checked-ok (err e) f check h = absurd (ground arith)
checked-ok {E = E} {N = N} (ok n) f check {x} h = by_check (check (f n)) refl h
  where
    by_check :
        (r : Result E (Unit {0}))
        → check (f n) ≡ r
        → (r >>= λ _. ok (f n)) ≡ ok x
        → (k : N) × (◌≡◌ {A = Result E N} (ok n) (ok k)) × (check x ≡ ok tt) × (f k ≡ x)
    by_check (err e) same k = absurd (ground arith)
    by_check (ok done) same k = let is : f n ≡ x = ground arith in (n, refl, rw (← is) same, is)

module _ (env : Environment) where
  -- The numbers of a loaded configuration, and that its texts pass the checks.
  record Loaded (config : Config) : Type 0 where
    ttl_least : minute ≤ config.manifest_ttl
    ttl_most : config.manifest_ttl ≤ hour
    cache_least : second ≤ config.manifest_cache
    cache_most : config.manifest_cache ≤ config.manifest_ttl / 2
    some_in_flight : 1 ≤ config.max_in_flight
    checked : check_config env config ≡ ok tt
    pilot : config.pilot_access ≡ not (text_eq config.database_url [])

  read_numbers-bounds :
      {n : Numbers}
      → read_numbers env ≡ ok n
      → (minute ≤ n.ttl)
        × (n.ttl ≤ hour)
        × (second ≤ n.cache)
        × (n.cache ≤ n.ttl / 2)
        × (1 ≤ n.most)
  unfolding read_numbers
  read_numbers-bounds {n} h = ground arith

  load_config-Loaded : {config : Config} → load_config env ≡ ok config → Loaded config
  unfolding load_config
  load_config-Loaded {config} h =
      let (numbers, read, valid, same) =
        checked-ok (read_numbers env) (read_config env) (check_config env) {x = config} h in
      let (a, b, c, d, e) = read_numbers-bounds {n = numbers} read in
      rw (← same) (loaded numbers a b c d e (ap (check_config env) same ∙ valid))
    where
      loaded :
          (n : Numbers)
          → minute ≤ n.ttl
          → n.ttl ≤ hour
          → second ≤ n.cache
          → n.cache ≤ n.ttl / 2
          → 1 ≤ n.most
          → check_config env (read_config env n) ≡ ok tt
          → Loaded (read_config env n)
      loaded n a b c d e valid = record {
        ttl_least = a;
        ttl_most = b;
        cache_least = c;
        cache_most = d;
        some_in_flight = e;
        checked = valid;
        pilot = unfold read_config in refl;
      }

  has_token :
      (config : Config)
      → check_config env config ≡ ok tt
      → text_eq config.database_url [] ≡ false
      → (32 ≤ length config.pilot_admin_token)
        × (length config.pilot_admin_token ≤ 512)
        × (has_part (env.to_lower config.pilot_admin_token) (bytes "replace-with") ≡ false)
        × (is_private_listener env config.listen_address ≡ true ⊎ config.pilot_access ≡ false)
  unfolding check_config
  has_token config h set = ground arith

  -- A configuration that is loaded passes the issuer's checks of its options, where the key has 64
  -- bytes and the key policy is valid under the root key; the handler's limit is the configured
  -- one; and where the administration of the pilot is on, it listens on a private address, and its
  -- token is accepted unless it holds a blank or a control character.
  pub load_config-accepted :
      (p : Platform) (options : IssuerOptions) {config : Config} {digest : Text}
      → load_config env ≡ ok config
      → options.ttl ≡ config.manifest_ttl
      → options.cache_for ≡ config.manifest_cache
      → length options.private_key ≡ 64
      → validate_key_policy p options.key_policy options.root_key ≡ ok digest
      → (check_options p options ≡ ok digest)
        × ((new_handler config.max_in_flight).max_in_flight ≡ config.max_in_flight)
        × (config.pilot_access ≡ true
            → (is_private_listener env config.listen_address ≡ true)
              × (all (λ c. not (is_blank c)) config.pilot_admin_token ≡ true
                  → token_digest p.sha256 env.to_lower config.pilot_admin_token
                    ≡ ok (p.sha256 config.pilot_admin_token)))
  unfolding check_options new_handler token_digest
  load_config-accepted p options {config} {digest} h ttl cache key policy =
      let l = load_config-Loaded {config = config} h in
      (
        ground (arith, l.ttl_least, l.ttl_most, l.cache_least, l.cache_most),
        ground (arith, l.some_in_flight),
        λ on.
            let set : text_eq config.database_url [] ≡ false = ground (arith, l.pilot) in
            let (least, most, clean, private_or_off) = has_token config l.checked set in
            (ground (arith, private_or_off), λ plain. ground (arith, least, most, clean)),
      )
