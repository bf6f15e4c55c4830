-- ===== src/Tests/MainTests.antt =====
-- A container that starts, and the stress build in it.
use text.Mathlib.Text.{◌==◌ as str_eq}
use hallmaster_proxy.Base.{
  ◌∷◌, ℕ, true, false, [], none, some, ok, err, ◌≡◌, ◌↔◌, refl, ap, ok-injective, if◌then◌else◌,
}
use hallmaster_proxy.Text.{Bytes, codes, equal}
use hallmaster_proxy.Handlers.Host.{is_discord_host, host_name}
use hallmaster_proxy.Handlers.Https.{upstream_dial}
use hallmaster_proxy.Handlers.Https.State.{Answers}
use hallmaster_proxy.Certs.Load.{Loader, new}
use hallmaster_proxy.Config.{Config, Environment, load, main_deps, health}
use hallmaster_proxy.Main.{World, Wired, main, wired, stress_overrides, resolve_by, insecure, fixed}
use hallmaster_proxy.Main.Starts.{served, fails, IsStarted, main-served}
use hallmaster_proxy.Main.Lifecycle.{
  Process, started, starting, listening, in_serve, serve_started, health_bound, port_bound,
  serve_begins, probed, Lives, launched, goes_on,
}
use hallmaster_proxy.Main.Lifecycle.Probes.{IsHealthy, Lives-IsHealthy}
use hallmaster_proxy.Main.Stress.{stress_overrides-dial}
use hallmaster_proxy.Tests.Fixtures.{ascii_only, toy_codecs, users_request}
use hallmaster_proxy.Tests.ConfigTests.{container, container_config, variable}
use hallmaster_proxy.Tests.Fixtures.{users_response}
use hallmaster_proxy.Dns.{LookupHost, ExternalResolver}

-- Files that hold their own paths.
abbrev ca_files : Loader
ca_files = record {
  stat_perm = λ path. ok 384;
  read_file = λ path. ok path;
  decode_pem = λ pem.
      some (
        if equal pem (codes "/certs/ca.crt") then codes "CERTIFICATE" else codes "PRIVATE KEY",
        pem,
      );
  parse_certificate = λ der. ok 1;
  parse_pkcs1 = λ der. ok 2;
  parse_pkcs8 = λ der. err (codes "use ParsePKCS1PrivateKey");
}

abbrev world : World
world = record {
  env = container;
  loader = ca_files;
  listen = λ address. none;
  health = λ address. none;
  health_first = false;
  unicode = ascii_only;
  codecs = toy_codecs;
}

abbrev production : Wired
production = wired world container_config (1, 2)

starts : served (main world none) ≡ some (codes "0.0.0.0:8080", production)
unfolding main load new equal
starts = refl

-- The health server's port is taken.
ends : fails (main (record world { health = λ address. some (codes "in use") }) none) ≡ true
unfolding main load new equal
ends = refl

main-served_example :
    ((address : Bytes) (w : Wired)
      → (served (main world none) ≡ some (address, w))
        ↔ ((cfg : Config) × (ca : ℕ × ℕ) × IsStarted world cfg ca address w))
    × (served (main world none) ≡ none → fails (main world none) ≡ true)
main-served_example = main-served world

abbrev mock : Environment
mock = record container {
  getenv =
      λ key. if str_eq key "STRESS_UPSTREAM_ADDR" then codes "robojs-mock:8443" else variable key;
}

abbrev under_stress : Wired
under_stress = record production {
  deps = record production.deps { upstream_tls_config = some insecure };
  resolver = fixed (codes "robojs-mock:8443");
}

abbrev mocked : Answers
mocked = record {
  handshake = λ host. none;
  resolve = λ host. ok (codes "robojs-mock:8443");
  dial = λ d. none;
  write_request = λ req. none;
  read_response = λ req. ok users_response;
  write_response = λ resp. none;
}

overrides : stress_overrides mock production ≡ some under_stress
unfolding stress_overrides equal
overrides = refl

users-discord : is_discord_host under_stress.deps.unicode users_request.host ≡ true
unfolding is_discord_host host_name wired main_deps
users-discord = refl

abbrev nowhere : ExternalResolver → LookupHost
nowhere r host = ok []

stress_overrides-dial_test :
    ((upstream_dial under_stress.deps users_request mocked).address
      ≡ mock.getenv "STRESS_UPSTREAM_ADDR")
    × ((upstream_dial under_stress.deps users_request mocked).config.server_name
        ≡ users_request.host)
    × ((upstream_dial under_stress.deps users_request mocked).config.insecure_skip_verify ≡ true)
unfolding resolve_by
stress_overrides-dial_test =
    stress_overrides-dial mock production under_stress users_request mocked nowhere overrides
      users-discord (λ address h. ap ok (ok-injective h))

-- A probe before the port is bound, and one while Serve runs.
abbrev probing : Process
probing = record started { health_up = true }

abbrev early : Process
early = record probing { answered = (starting, 503) ∷ [] }

abbrev ready_process : Process
ready_process = record early { phase = in_serve serve_started }

abbrev probed_twice : Process
probed_twice = record ready_process { answered = (in_serve serve_started, 200) ∷ early.answered }

probed_twice-Lives : Lives probed_twice
unfolding health
probed_twice-Lives =
    goes_on {s = ready_process}
      (goes_on {s = record early { phase = listening }}
        (goes_on {s = early}
          (goes_on {s = probing} (goes_on {s = started} launched refl (health_bound refl)) refl
            (probed refl refl))
          refl (port_bound refl refl))
        refl (serve_begins refl refl))
      refl (probed refl refl)

Lives-IsHealthy_example : IsHealthy probed_twice
Lives-IsHealthy_example = Lives-IsHealthy probed_twice probed_twice-Lives
