-- ===== src/Visit/Served.antt =====
-- A bot's REST requests on one connection, through the proxy as main.go puts it together.
use mathlib.Core.List.{Memᴰ}
use hallmaster_proxy.Base.{true, [], refl, List, ◌∷◌, none, ◌≡◌, ap, ◌∙◌, inr, All}
use hallmaster_proxy.Text.{Bytes, Unicode}
use hallmaster_proxy.Httpio.{Codecs}
use hallmaster_proxy.Tamper.Logging.{Log}
use hallmaster_proxy.Handlers.Host.{discord_host_suffixes, host_name}
use hallmaster_proxy.Handlers.Host.Accepts.{IsWithin}
use hallmaster_proxy.Handlers.Https.State.{Deps, Event, start, dial}
use hallmaster_proxy.Handlers.Https.{run, upstream_dial}
use hallmaster_proxy.Handlers.Https.KeepAlive.{Exchange, IsWhole, IsServed, turns_of, run-IsServed}
use hallmaster_proxy.Mitm.Connection.{IsTunnel}
use hallmaster_proxy.Config.{Config, main_deps}
use hallmaster_proxy.Config.Wiring.{main_deps-should_intercept_iff}
use hallmaster_proxy.Visit.{Visitor, in_sessions, all_back, visit}
use hallmaster_proxy.Visit.Gateway.{session_events, session_events-in_sessions, visit_tunnel}
use hallmaster_proxy.Visit.Production.{main_deps-IsPassThrough}

-- No exchange waits for pumps or copies.
all_back-IsServed :
    {S I : Type 0} (deps : Deps S) (v : Visitor S I) (host : Bytes) (exchanges : List Exchange)
    (events : List Event)
    → IsServed host exchanges events
    → all_back deps v events ≡ true
unfolding all_back
all_back-IsServed deps v host [] events served = rw served refl
all_back-IsServed deps v host (x ∷ exchanges) events (framed, rest, e, is_framed, served) =
    rw e (all_back-IsServed deps v host exchanges rest served)

module _ (u : Unicode) (c : Codecs) (cfg : Config) where
  -- A session of requests for a host of Discord's with the dependencies that main fills in.
  pub run-main_deps :
      (t : Log) (host domain : Bytes) (x : Exchange) (exchanges : List Exchange)
      → Memᴰ domain discord_host_suffixes
      → IsWithin domain (host_name u host)
      → x.answers.dial (upstream_dial (main_deps u c cfg) x.req x.answers) ≡ none
      → All (IsWhole (main_deps u c cfg) host) (x ∷ exchanges)
      → (events : List Event) × (run (main_deps u c cfg) (start t) (turns_of (x ∷ exchanges))
          ≡ dial (upstream_dial (main_deps u c cfg) x.req x.answers) 0 ∷ events)
        × IsServed host (x ∷ exchanges) events
  run-main_deps t host domain x exchanges listed within dialled whole =
      let intercepted =
        (main_deps-should_intercept_iff u c cfg host).1 (inr (inr (domain, listed, within))) in
      run-IsServed (main_deps u c cfg) (main_deps-IsPassThrough u c cfg) host t x exchanges
        intercepted dialled whole

  -- Through the proxy that main starts, whatever its configuration: a bot opens a tunnel, by TLS at
  -- once or by a CONNECT, and makes one or more requests for a host that is, or lies within, one of
  -- Discord's two, none a CONNECT or a WebSocket upgrade, each with a body that can be read, if any,
  -- and these are all its requests; the dial and all writes succeed, and the upstream answers each
  -- in text and in full. Then one upstream is dialled, each request goes out over it as it came, the
  -- client is sent its response with the same bytes and status, framed by Content-Length, and the
  -- response's body is closed, before the next request goes out; and the upstream is closed at the
  -- end of the input.
  pub visit-IsServed :
      {I : Type 0} (t : Log) (v : Visitor Log I) (host domain : Bytes) (x : Exchange)
      (exchanges : List Exchange)
      → IsTunnel v.client
      → v.turns ≡ turns_of (x ∷ exchanges)
      → Memᴰ domain discord_host_suffixes
      → IsWithin domain (host_name u host)
      → x.answers.dial (upstream_dial (main_deps u c cfg) x.req x.answers) ≡ none
      → All (IsWhole (main_deps u c cfg) host) (x ∷ exchanges)
      → (events : List Event) × (session_events (visit (main_deps u c cfg) t v)
          ≡ dial (upstream_dial (main_deps u c cfg) x.req x.answers) 0 ∷ events)
        × IsServed host (x ∷ exchanges) events
  visit-IsServed t v host domain x exchanges tunnel all_turns listed within dialled whole =
      let deps = main_deps u c cfg in
      let (events, runs, served) =
        run-main_deps t host domain x exchanges listed within dialled whole in
      let back : all_back deps v (dial (upstream_dial deps x.req x.answers) 0 ∷ events) ≡ true =
        unfold all_back in all_back-IsServed deps v host (x ∷ exchanges) events served in
      (
        events,
        (visit_tunnel deps t v tunnel).0
            ∙ ap (λ (es : List Event). session_events (in_sessions deps v es))
                (ap (run deps (start t)) all_turns ∙ runs)
            ∙ session_events-in_sessions deps v
                (dial (upstream_dial deps x.req x.answers) 0 ∷ events) back,
        served,
      )
