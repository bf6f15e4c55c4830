-- ===== src/Config/Load.antt =====
-- When the configuration loads.
use hallmaster_proxy.Base.{[], Result, ok, err, ◌≡◌, ◌≢◌, ◌⊎◌, ◌↔◌, refl, arith, ok-injective}
use hallmaster_proxy.Text.{Bytes}
use hallmaster_proxy.Config.{
  Config, ConfigError, Environment, load, host_or, configured, with_paths, with_hostname,
}

-- The name by which the proxy knows itself: the variable, or the system's name if it is not set.
abbrev pub IsHostname : Environment → Bytes → Type 0
IsHostname env hostname =
    ((env.getenv "PROXY_HOSTNAME" ≡ hostname) × (hostname ≢ []))
    ⊎ ((env.getenv "PROXY_HOSTNAME" ≡ []) × (env.hostname ≡ ok hostname))

host_or_iff :
    (system : Result Bytes Bytes) (v hostname : Bytes)
    → (host_or system v ≡ ok hostname)
      ↔ (((v ≡ hostname) × (hostname ≢ [])) ⊎ ((v ≡ []) × (system ≡ ok hostname)))
unfolding host_or
host_or_iff system v hostname = ground arith

with_paths_iff :
    (env : Environment) (hostname p q : Bytes) (cfg : Config)
    → (with_paths env hostname p q ≡ ok cfg)
      ↔ ((p ≢ []) × (q ≢ []) × (configured env hostname p q ≡ cfg))
unfolding with_paths
with_paths_iff env hostname p q cfg = ground arith

with_hostname_iff :
    (env : Environment) (r : Result ConfigError Bytes) (cfg : Config)
    → (with_hostname env r ≡ ok cfg) ↔ (
        (hostname : Bytes) × (r ≡ ok hostname)
        × (with_paths env hostname
              (env.getenv "PROXY_SSL_CA_CERT_PATH")
              (env.getenv "PROXY_SSL_CA_KEY_PATH")
            ≡ ok cfg))
unfolding with_hostname
with_hostname_iff env (err e) cfg = (λ h. cc, λ (hostname, r, h). cc)
with_hostname_iff env (ok known) cfg =
    (λ h. (known, refl, h), λ (hostname, r, h). rw (ok-injective r) h)

-- The configuration loads exactly if the hostname is set or the system knows it and both CA paths
-- are set; it then has that hostname and those paths.
pub load_iff :
    (env : Environment) (cfg : Config)
    → (load env ≡ ok cfg) ↔ (
        (hostname : Bytes) × IsHostname env hostname
        × (env.getenv "PROXY_SSL_CA_CERT_PATH" ≢ [])
        × (env.getenv "PROXY_SSL_CA_KEY_PATH" ≢ [])
        × (configured env hostname
              (env.getenv "PROXY_SSL_CA_CERT_PATH")
              (env.getenv "PROXY_SSL_CA_KEY_PATH")
            ≡ cfg))
unfolding load
load_iff env cfg =
    let known = host_or env.hostname (env.getenv "PROXY_HOSTNAME") in
    let cert = env.getenv "PROXY_SSL_CA_CERT_PATH" in
    let key = env.getenv "PROXY_SSL_CA_KEY_PATH" in
    (
      λ h.
          let (hostname, is_known, loaded) = (with_hostname_iff env known cfg).0 h in
          let (has_cert, has_key, e) = (with_paths_iff env hostname cert key cfg).0 loaded in
          (
            hostname,
            (host_or_iff env.hostname (env.getenv "PROXY_HOSTNAME") hostname).0 is_known,
            has_cert,
            has_key,
            e,
          ),
      λ (hostname, is_hostname, has_cert, has_key, e). (with_hostname_iff env known cfg).1 (
        hostname,
        (host_or_iff env.hostname (env.getenv "PROXY_HOSTNAME") hostname).1 is_hostname,
        (with_paths_iff env hostname cert key cfg).1 (has_cert, has_key, e),
      ),
    )
