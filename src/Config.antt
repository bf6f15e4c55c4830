-- ===== src/Config.antt =====
-- The process around the listener: proxy/internals/config/config.go (the environment), the answer of
-- proxy/internals/healthz/healthz.go, and what proxy/main.go makes of the configuration.
pub mod Load
pub mod Wiring
use hallmaster_proxy.Base.{
  ℕ, ◌*◌, Bool, true, false, List, [], ◌∷◌, ◌++◌, none, Result, ok, err, if◌then◌else◌,
}
use Prim.Native.String.{String}
use hallmaster_proxy.Text.{Bytes, codes, Unicode}
use hallmaster_proxy.Httpio.{Codecs}
use hallmaster_proxy.Tamper.Logging.{Log, logging}
use hallmaster_proxy.Handlers.Https.State.{Deps}

-- Durations are in seconds.
pub record Config : Type 0 where
  pub hostname : Bytes
  pub port : Bytes
  pub health_port : Bytes
  pub ca_cert_path : Bytes
  pub ca_key_path : Bytes
  pub upstream_dial_timeout : ℕ
  pub dns_server : Bytes
  pub dns_timeout : ℕ
  pub log_bodies : Bool

pub data ConfigError : Type 0 where
  hostname_failed : Bytes → ConfigError
  ca_cert_path_required : ConfigError
  ca_key_path_required : ConfigError

-- os.Getenv (an unset variable is empty), os.Hostname and strconv.ParseBool
pub record Environment : Type 0 where
  pub getenv : String → Bytes
  pub hostname : Result Bytes Bytes
  pub parse_bool : Bytes → Result Bytes Bool

abbrev pub or_default : Bytes → Bytes → Bytes
or_default def [] = def
or_default def (c ∷ v) = c ∷ v

abbrev bool_or : Bool → Result Bytes Bool → Bool
bool_or def (ok v) = v
bool_or def (err e) = def

pub getenv_default : Environment → String → Bytes → Bytes
getenv_default env key def = or_default def (env.getenv key)

pub getenv_bool_default : Environment → String → Bool → Bool
getenv_bool_default env key def = bool_or def (env.parse_bool (env.getenv key))

-- The hostname: the variable, or the system's.
pub host_or : Result Bytes Bytes → Bytes → Result ConfigError Bytes
host_or (ok name) [] = ok name
host_or (err e) [] = err (hostname_failed e)
host_or system (c ∷ v) = ok (c ∷ v)

-- The configuration once the hostname and the two paths are known to be there.
pub configured : Environment → Bytes → Bytes → Bytes → Config
unfolding getenv_default getenv_bool_default
configured env hostname ca_cert_path ca_key_path = record {
  hostname = hostname;
  port = getenv_default env "PROXY_PORT" (codes "8080");
  health_port = getenv_default env "PROXY_HEALTH_PORT" (codes "8081");
  ca_cert_path = ca_cert_path;
  ca_key_path = ca_key_path;
  upstream_dial_timeout = 10;
  dns_server = getenv_default env "PROXY_DNS_SERVER" (codes "8.8.8.8:53");
  dns_timeout = 5;
  log_bodies = getenv_bool_default env "PROXY_LOG_BODIES" true;
}

with_paths : Environment → Bytes → Bytes → Bytes → Result ConfigError Config
unfolding configured
with_paths env hostname [] ca_key_path = err ca_cert_path_required
with_paths env hostname (c ∷ p) [] = err ca_key_path_required
with_paths env hostname (c ∷ p) (d ∷ q) = ok (configured env hostname (c ∷ p) (d ∷ q))

with_hostname : Environment → Result ConfigError Bytes → Result ConfigError Config
unfolding with_paths
with_hostname env (err e) = err e
with_hostname env (ok hostname) =
    with_paths env hostname (env.getenv "PROXY_SSL_CA_CERT_PATH")
      (env.getenv "PROXY_SSL_CA_KEY_PATH")

unfoldable pub load : Environment → Result ConfigError Config
unfolding with_hostname host_or
load env = with_hostname env (host_or env.hostname (env.getenv "PROXY_HOSTNAME"))

-- The answer to GET /healthz: the status and the body.
unfoldable pub health : Bool → ℕ × Bytes
health ready = if ready then (200, codes "ok\n") else (503, codes "not ready\n")

-- What main hands to the handler, with the libraries behind it.
unfoldable pub main_deps : Unicode → Codecs → Config → Deps Log
unfolding logging
main_deps unicode codecs cfg = record {
  proxy_host_port = cfg.hostname ++ (codes ":" ++ cfg.port);
  clean_hostname = cfg.hostname;
  tamperer = logging cfg.log_bodies;
  upstream_tls_config = none;
  unicode = unicode;
  codecs = codecs;
}
