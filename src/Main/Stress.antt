-- ===== src/Main/Stress.antt =====
-- Where the stress build sends its load.
use hallmaster_proxy.Base.{true, [], ◌∷◌, some, ok, ◌≡◌, refl, ap, arith}
use hallmaster_proxy.Text.{Bytes}
use hallmaster_proxy.Http.{Request}
use hallmaster_proxy.Dns.{LookupHost, ExternalResolver}
use hallmaster_proxy.Handlers.Host.{is_discord_host}
use hallmaster_proxy.Handlers.Https.State.{Answers}
use hallmaster_proxy.Handlers.Https.{upstream_dial, upstream_config, target_host}
use hallmaster_proxy.Config.{Environment}
use hallmaster_proxy.Main.{Wired, resolve_by, stress_overrides, stressed, insecure, fixed}

stressed-fixed :
    (env : Environment) (upstream : Bytes) (before w : Wired)
    → stressed env upstream before ≡ some w
    → (w.resolver ≡ fixed upstream) × (w.deps.upstream_tls_config ≡ some insecure)
unfolding stressed
stressed-fixed env [] before w h = cc
stressed-fixed env (c ∷ upstream) before w h = ground arith

-- In the stress build every upstream for one of Discord's hosts is dialled at STRESS_UPSTREAM_ADDR,
-- which is set, with the Host of the request as its server name and without verification of its
-- certificate, where the handler resolves by the resolver it is given.
pub stress_overrides-dial :
    (env : Environment) (before w : Wired) (req : Request) (a : Answers)
    (lookup_host : ExternalResolver → LookupHost)
    → stress_overrides env before ≡ some w
    → is_discord_host w.deps.unicode req.host ≡ true
    → ((address : Bytes)
        → resolve_by lookup_host w.resolver req.host ≡ ok address
        → a.resolve req.host ≡ ok address)
    → ((upstream_dial w.deps req a).address ≡ env.getenv "STRESS_UPSTREAM_ADDR")
      × ((upstream_dial w.deps req a).config.server_name ≡ req.host)
      × ((upstream_dial w.deps req a).config.insecure_skip_verify ≡ true)
unfolding stress_overrides resolve_by target_host upstream_config
stress_overrides-dial env before w req a lookup_host h discord resolves =
    let upstream = env.getenv "STRESS_UPSTREAM_ADDR" in
    let (to_upstream, unverified) = stressed-fixed env upstream before w h in
    let answer = resolves upstream (ap (λ r. resolve_by lookup_host r req.host) to_upstream) in
    (rw (discord, answer) refl, refl, rw unverified refl)
