-- ===== src/Main.antt =====
-- proxy/main.go and, for the stress build, proxy/main_stress.go: how the proxy starts. Environment,
-- files and sockets are parameters.
pub mod Starts
pub mod Stress
pub mod Lifecycle
use hallmaster_proxy.Base.{
  ℕ, Bool, true, false, List, [], ◌∷◌, ◌++◌, Option, none, some, Result, ok, err, if◌then◌else◌,
}
use hallmaster_proxy.Text.{Bytes, codes, Unicode, equal}
use hallmaster_proxy.Httpio.{Codecs}
use hallmaster_proxy.Dns.{
  LookupHost, ResolveError, resolve, ExternalResolver, new_external_resolver,
}
use hallmaster_proxy.Tamper.{Tamperer, nop}
use hallmaster_proxy.Tamper.Logging.{Log}
use hallmaster_proxy.Certs.Load.{Loader, LoadError, new}
use hallmaster_proxy.Handlers.Https.State.{Deps, TlsConfig}
use hallmaster_proxy.Config.{Config, ConfigError, Environment, load, main_deps}

-- The dnsbypass.Resolver of the handlers: the external one, or the stress build's fixedResolver.
pub data Resolver : Type 0 where
  external : ExternalResolver → Resolver
  fixed : Bytes → Resolver

-- Resolve, where `lookup_host` looks names up by an external resolver.
unfoldable pub resolve_by :
    (ExternalResolver → LookupHost) → Resolver → Bytes → Result ResolveError Bytes
unfolding resolve
resolve_by lookup_host (external r) host_port = resolve (lookup_host r) host_port
resolve_by lookup_host (fixed address) host_port = ok address

-- HandlerDeps, with the CA for the Handshaker.
pub record Wired : Type 0 where
  pub deps : Deps Log
  pub resolver : Resolver
  pub ca : ℕ × ℕ

pub data Event : Type 0 where
  -- healthz.ListenAndServe on an address
  health_server : Bytes → Event
  -- Serve on a listener for an address
  serving : Bytes → Wired → Event
  exit : ℕ → Event

-- The world of main: the environment, the CA's files, net.Listen (its error), the error with which
-- http.ListenAndServe fails on the health server's address, if it does, and whether that comes
-- before main is through, and the libraries behind the handler.
pub record World : Type 0 where
  pub env : Environment
  pub loader : Loader
  pub listen : Bytes → Option Bytes
  pub health : Bytes → Option Bytes
  pub health_first : Bool
  pub unicode : Unicode
  pub codecs : Codecs

-- stressOverrides: nil in production; `none` is an exit.
abbrev pub Overrides : Type 0
Overrides = Option (Wired → Option Wired)

unfoldable pub wired : World → Config → ℕ × ℕ → Wired
unfolding main_deps new_external_resolver
wired world cfg ca = record {
  deps = main_deps world.unicode world.codecs cfg;
  resolver = external (new_external_resolver cfg.dns_server cfg.dns_timeout);
  ca = ca;
}

abbrev pub listen_address : Config → Bytes
listen_address cfg = codes "0.0.0.0:" ++ cfg.port

abbrev pub health_address : Config → Bytes
health_address cfg = codes "127.0.0.1:" ++ cfg.health_port

pub bound : Bytes → Wired → Option Bytes → List Event
bound address w none = serving address w ∷ []
bound address w (some e) = exit 1 ∷ []

-- MITMProxy.Listen
pub listen : World → Bytes → Wired → List Event
unfolding bound
listen world address w = bound address w (world.listen address)

pub overridden : World → Bytes → Option Wired → List Event
unfolding listen
overridden world address none = exit 1 ∷ []
overridden world address (some w) = listen world address w

abbrev pub override : Overrides → Wired → Option Wired
override none w = some w
override (some overrides) w = overrides w

-- The process ends with its first exit.
then_exit : List Event → List Event
then_exit [] = exit 1 ∷ []
then_exit (exit status ∷ events) = exit status ∷ []
then_exit (e ∷ events) = e ∷ then_exit events

-- healthz.ListenAndServe: its goroutine runs beside `events`, and ends the process if it fails.
pub beside_health : Option Bytes → Bool → List Event → List Event
unfolding then_exit
beside_health none first events = events
beside_health (some e) first events = if first then exit 1 ∷ [] else then_exit events

pub with_ca : World → Overrides → Config → Result LoadError (ℕ × ℕ) → List Event
unfolding overridden wired beside_health
with_ca world overrides cfg (err e) = exit 1 ∷ []
with_ca world overrides cfg (ok ca) =
    health_server (health_address cfg)
    ∷ beside_health (world.health (health_address cfg)) world.health_first
        (overridden world (listen_address cfg) (override overrides (wired world cfg ca)))

pub with_config : World → Overrides → Result ConfigError Config → List Event
unfolding with_ca new
with_config world overrides (err e) = exit 1 ∷ []
with_config world overrides (ok cfg) =
    with_ca world overrides cfg (new world.loader cfg.ca_cert_path cfg.ca_key_path)

-- main
unfoldable pub main : World → Overrides → List Event
unfolding with_config load
main world overrides = with_config world overrides (load world.env)

abbrev stress_tamperer : Bytes → Tamperer Log → Tamperer Log
stress_tamperer named tamperer = if equal named (codes "nop") then nop else tamperer

abbrev pub insecure : TlsConfig
insecure = record { root_cas = []; insecure_skip_verify = true; server_name = []; next_protos = [] }

stressed : Environment → Bytes → Wired → Option Wired
unfolding equal
stressed env [] w = none
stressed env (c ∷ upstream) w = some (record w {
  deps = record w.deps {
    tamperer = stress_tamperer (env.getenv "STRESS_TAMPERER") w.deps.tamperer;
    upstream_tls_config = some insecure;
  };
  resolver = fixed (c ∷ upstream);
})

-- The function that main_stress.go installs.
unfoldable pub stress_overrides : Environment → Wired → Option Wired
unfolding stressed
stress_overrides env w = stressed env (env.getenv "STRESS_UPSTREAM_ADDR") w
