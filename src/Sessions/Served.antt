-- ===== src/Sessions/Served.antt =====
-- A bot's REST requests, among the sessions of others, through the proxy as main.go puts it together.
use mathlib.Core.List.{Memᴰ}
use hallmaster_proxy.Base.{ℕ, List, [], ◌∷◌, ◌++◌, none, ◌≡◌, ◌∙◌, All}
use hallmaster_proxy.Text.{Bytes, Unicode}
use hallmaster_proxy.Httpio.{Codecs}
use hallmaster_proxy.Tamper.Logging.{Log}
use hallmaster_proxy.Handlers.Host.{discord_host_suffixes, host_name}
use hallmaster_proxy.Handlers.Host.Accepts.{IsWithin}
use hallmaster_proxy.Handlers.Https.State.{Event, Turn, broken, dial}
use hallmaster_proxy.Handlers.Https.{upstream_dial}
use hallmaster_proxy.Handlers.Https.KeepAlive.{Exchange, IsWhole, IsServed}
use hallmaster_proxy.Handlers.Https.KeepAlive
use hallmaster_proxy.Config.{Config, main_deps}
use hallmaster_proxy.Sessions.{sessions_run, begin}
use hallmaster_proxy.Sessions.Isolated.{
  events_of, turns_of, IsStateless, logging-IsStateless, sessions_run-run,
}
use hallmaster_proxy.Visit.Served.{run-main_deps}

main_deps-IsStateless :
    (u : Unicode) (c : Codecs) (cfg : Config) → IsStateless (main_deps u c cfg).tamperer
unfolding main_deps
main_deps-IsStateless u c cfg = logging-IsStateless cfg.log_bodies

-- However the rounds of many sessions interleave from their start on, in the proxy that main starts
-- and whatever the other clients do: a session consists of one or more requests for a host that is,
-- or lies within, one of Discord's two, none a CONNECT or a WebSocket upgrade, each with a body that
-- can be read, if any, and then its input ends; its dial and all its writes succeed, and the
-- upstream answers each request in text and in full. Then in this session one upstream is dialled,
-- each request goes out over it as it came, the client is sent its response with the same bytes and
-- status, framed by Content-Length, and the response's body is closed, before the next request
-- goes out; and the upstream is closed at the end.
pub sessions_run-IsServed :
    (u : Unicode) (c : Codecs) (cfg : Config) (t : Log) (schedule : List (ℕ × Turn)) (conn : ℕ)
    (host domain : Bytes) (x : Exchange) (exchanges : List Exchange) (e : Bytes)
    → turns_of conn schedule ≡ KeepAlive.turns_of (x ∷ exchanges) ++ (broken e ∷ [])
    → Memᴰ domain discord_host_suffixes
    → IsWithin domain (host_name u host)
    → x.answers.dial (upstream_dial (main_deps u c cfg) x.req x.answers) ≡ none
    → All (IsWhole (main_deps u c cfg) host) (x ∷ exchanges)
    → (events : List Event) × (events_of conn
          (sessions_run (main_deps u c cfg) (begin t) t schedule)
        ≡ dial (upstream_dial (main_deps u c cfg) x.req x.answers) 0 ∷ events)
      × IsServed host (x ∷ exchanges) events
sessions_run-IsServed u c cfg t schedule conn host domain x exchanges e own listed within dialled
      whole =
    let (events, runs, served) =
      run-main_deps u c cfg t host domain x exchanges listed within dialled whole in
    (
      events,
      sessions_run-run (main_deps u c cfg) t schedule conn (KeepAlive.turns_of (x ∷ exchanges)) e
            (main_deps-IsStateless u c cfg) own
          ∙ runs,
      served,
    )
