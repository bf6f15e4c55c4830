-- ===== src/Visit/Production.antt =====
-- A bot's gateway connection through the proxy as main.go puts it together.
use mathlib.Core.List.{Memᴰ}
use hallmaster_proxy.Base.{true, false, List, ◌∷◌, Option, none, some, ok, ◌≡◌, ◌==◌, inr}
use hallmaster_proxy.Text.{Bytes, Unicode, codes, equal}
use hallmaster_proxy.Http.{Request, Response}
use hallmaster_proxy.Httpio.{Codecs}
use hallmaster_proxy.Tamper.Logging.{Log}
use hallmaster_proxy.Tamper.PassThrough.{IsPassThrough, whole_body, logging-IsPassThrough}
use hallmaster_proxy.Handlers.Host.{discord_host_suffixes, host_name}
use hallmaster_proxy.Handlers.Host.Accepts.{IsWithin}
use hallmaster_proxy.Handlers.Https.State.{Answers, Turn, asks}
use hallmaster_proxy.Handlers.Https.Exchange.{is_websocket_upgrade}
use hallmaster_proxy.Handlers.Https.{upstream_dial}
use hallmaster_proxy.Handlers.Https.Upgraded.{IsUpgraded, upgrade_events}
use hallmaster_proxy.Handlers.Ws.{unmasked}
use hallmaster_proxy.Handlers.Ws.Relay.{
  bot_receives, discord_receives, discord_side, bot_side, relay,
}
use hallmaster_proxy.Mitm.Connection.{IsTunnel}
use hallmaster_proxy.Config.{Config, main_deps}
use hallmaster_proxy.Config.Wiring.{main_deps-should_intercept_iff}
use hallmaster_proxy.Handlers.Ws.Gateway.{link}
use hallmaster_proxy.Handlers.Ws.Gateway.Relays.{moves_of}
use hallmaster_proxy.Visit.{Visitor, visit}
use hallmaster_proxy.Visit.Gateway.{session_events, frame_events, IsInspected, visit-relay}

module _ (u : Unicode) (c : Codecs) (cfg : Config) where
  pub main_deps-IsPassThrough : IsPassThrough (main_deps u c cfg).tamperer
  unfolding main_deps
  main_deps-IsPassThrough = logging-IsPassThrough cfg.log_bodies

  -- The bot asks for a WebSocket on a host of Discord's, and nothing goes wrong on the way.
  pub record IsGateway (req : Request) (a : Answers) (read : Response) : Type 0 where
    pub domain : Bytes
    pub listed : Memᴰ domain discord_host_suffixes
    pub within : IsWithin domain (host_name u req.host)
    pub no_connect : equal req.method (codes "CONNECT") ≡ false
    pub websocket : is_websocket_upgrade u req ≡ true
    pub dialled : a.dial (upstream_dial (main_deps u c cfg) req a) ≡ none
    pub sent : a.write_request req ≡ none
    pub answers : a.read_response req ≡ ok read
    pub switches : (read.status_code == 101) ≡ true
    pub mirrored : a.write_response (record read { request = some req }) ≡ none

  upgraded :
      (req : Request) (a : Answers) (read : Response)
      → IsGateway req a read
      → IsUpgraded (main_deps u c cfg) req a read
  unfolding main_deps
  upgraded req a read h = record {
    no_connect = h.no_connect;
    intercepted =
        (main_deps-should_intercept_iff u c cfg req.host).1
          (inr (inr (h.domain, h.listed, h.within)));
    websocket = h.websocket;
    dialled = h.dialled;
    sent = h.sent;
    answers = h.answers;
    switches = h.switches;
    mirrored = h.mirrored;
  }

  -- Through the proxy that main starts, whatever its configuration: a bot opens a tunnel and asks,
  -- first thing and by no CONNECT, for a WebSocket on a host that is, or lies within, one of Discord's two, with a
  -- body that can be read, if any; the upstream can be reached and switches, the request and the
  -- response can be written, both pumps of InspectWS return, and, if the stream is compressed, no
  -- call of the zlib decoder blocks. Then one upstream is dialled, the request goes out as it came, the
  -- response is mirrored, and the upstream is closed at the end; and up to the first close
  -- frame or failed write of each direction, the bot receives the frames that Discord sent, with the
  -- payloads as they were on the wire, and Discord the bot's, unmasked.
  pub visit-main_deps :
      {I : Type 0} (t : Log) (v : Visitor Log I) (req : Request) (a : Answers) (read : Response)
      (b : Option Bytes) (rest : List Turn)
      → IsTunnel v.client
      → v.turns ≡ asks req a ∷ rest
      → req.body ≡ whole_body b
      → IsGateway req a read
      → IsInspected (main_deps u c cfg) t v req
      → let events = visit (main_deps u c cfg) t v in
        (session_events events ≡ upgrade_events (main_deps u c cfg) req a read)
        × (bot_receives (frame_events events)
            ≡ relay (λ f. f.payload) (discord_side (moves_of v.rounds)))
        × (discord_receives (frame_events events)
            ≡ relay
                (unmasked (link (main_deps u c cfg).tamperer v.cipher v.inflater true))
                (bot_side (moves_of v.rounds)))
  visit-main_deps t v req a read b rest tunnel first body h ins =
      visit-relay (main_deps u c cfg) t v req a read b rest main_deps-IsPassThrough tunnel first
        body (upgraded req a read h) ins
