-- ===== src/Tests/ConfigTests.antt =====
-- An environment with the two CA paths and no hostname.
use Prim.Native.String.{String}
use text.Mathlib.Text.{◌==◌ as str_eq}
use mathlib.Core.List.{Memᴰ}
use hallmaster_proxy.Base.{true, [], ◌∷◌, ◌++◌, ok, err, ◌≡◌, ◌≢◌, ◌⊎◌, ◌↔◌, refl, if◌then◌else◌}
use hallmaster_proxy.Text.{Bytes, codes}
use hallmaster_proxy.Handlers.Host.{discord_host_suffixes, host_name}
use hallmaster_proxy.Handlers.Host.Accepts.{IsWithin}
use hallmaster_proxy.Handlers.Https.{should_intercept}
use hallmaster_proxy.Mitm.{connection, failed, serve}
use hallmaster_proxy.Config.{Config, Environment, load, configured, health, main_deps}
use hallmaster_proxy.Config.Load.{IsHostname, load_iff}
use hallmaster_proxy.Config.Wiring.{main_deps-should_intercept_iff, health-serve}
use hallmaster_proxy.Tests.Fixtures.{ascii_only, toy_codecs}

abbrev pub variable : String → Bytes
variable key =
    if str_eq key "PROXY_SSL_CA_CERT_PATH"
    then codes "/certs/ca.crt"
    else if str_eq key "PROXY_SSL_CA_KEY_PATH"
    then codes "/certs/ca.key"
    else []

abbrev pub container : Environment
container = record {
  getenv = variable;
  hostname = ok (codes "3f2a");
  parse_bool = λ text. err (codes "invalid syntax");
}

abbrev pub container_config : Config
container_config = record {
  hostname = codes "3f2a";
  port = codes "8080";
  health_port = codes "8081";
  ca_cert_path = codes "/certs/ca.crt";
  ca_key_path = codes "/certs/ca.key";
  upstream_dial_timeout = 10;
  dns_server = codes "8.8.8.8:53";
  dns_timeout = 5;
  log_bodies = true;
}

container-loads : load container ≡ ok container_config
unfolding load
container-loads = refl

load_iff_test : (load container ≡ ok container_config) ↔ (
    (hostname : Bytes) × IsHostname container hostname
    × (container.getenv "PROXY_SSL_CA_CERT_PATH" ≢ [])
    × (container.getenv "PROXY_SSL_CA_KEY_PATH" ≢ [])
    × (configured container hostname
          (container.getenv "PROXY_SSL_CA_CERT_PATH")
          (container.getenv "PROXY_SSL_CA_KEY_PATH")
        ≡ container_config))
load_iff_test = load_iff container container_config

main_deps-should_intercept_iff_test :
    (should_intercept (main_deps ascii_only toy_codecs container_config) (codes "3f2a:8080") ≡ true)
    ↔ ((codes "3f2a:8080" ≡ codes "3f2a")
        ⊎ ((codes "3f2a:8080" ≡ codes "3f2a" ++ (codes ":" ++ codes "8080"))
            ⊎ ((domain : Bytes) × Memᴰ domain discord_host_suffixes
                × IsWithin domain (host_name ascii_only (codes "3f2a:8080")))))
main_deps-should_intercept_iff_test =
    main_deps-should_intercept_iff ascii_only toy_codecs container_config (codes "3f2a:8080")

health-serve_test : (health (serve (connection 1 ∷ failed true ∷ [])).ready).0 ≡ 503
health-serve_test = health-serve (connection 1 ∷ failed true ∷ [])
