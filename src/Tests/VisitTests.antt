-- ===== src/Tests/VisitTests.antt =====
-- Whole connections, one and many.
use mathlib.Core.List.{Memᴰ}
use hallmaster_proxy.Text.{trim_suffix}
use hallmaster_proxy.Net.{split_host_port}
use hallmaster_proxy.Handlers.Host.{host_name}
use hallmaster_proxy.Handlers.Https.State.{Deps}
use hallmaster_proxy.Config.{main_deps}
use hallmaster_proxy.Visit.Production.{IsGateway, visit-main_deps}
use hallmaster_proxy.Tests.Fixtures.{ascii_only, toy_codecs}
use hallmaster_proxy.Tests.ConfigTests.{container_config}
use hallmaster_proxy.Base.{ℕ, ◌+◌, true, false, inr, List, [], ◌∷◌, none, ◌≡◌, refl}
use hallmaster_proxy.Text.{has_suffix, codes, equal, contains, to_lower, equal_fold}
use hallmaster_proxy.Http.{Request, Response}
use hallmaster_proxy.Http.Fields.{get}
use hallmaster_proxy.Tamper.Logging.{Log}
use hallmaster_proxy.Tamper.PassThrough.{logging-IsPassThrough}
use hallmaster_proxy.Handlers.Host.{is_discord_host}
use hallmaster_proxy.Handlers.Https.State.{Turn, broken, asks, start}
use hallmaster_proxy.Handlers.Https.Exchange.{is_compressed, is_websocket_upgrade}
use hallmaster_proxy.Handlers.Https.{run, should_intercept}
use hallmaster_proxy.Handlers.Https.Upgraded.{IsUpgraded, upgrade_events}
use hallmaster_proxy.Handlers.Https.Pump.{
  Copy, from_client, from_server, chunk, ended, copying, pump,
}
use hallmaster_proxy.Handlers.Https.Pump.Relayed.{
  server_receives, client_receives, closes, client_sent, server_sent, until_end, one_if,
  pump-relays,
}
use hallmaster_proxy.Handlers.Ws.{unmasked}
use hallmaster_proxy.Handlers.Ws.Relay.{
  bot_receives, discord_receives, discord_side, bot_side, relay,
}
use hallmaster_proxy.Mitm.Connection.{IsTunnel}
use hallmaster_proxy.Visit.{Visitor, visit}
use hallmaster_proxy.Handlers.Ws.Gateway.{link, opening, gateway}
use hallmaster_proxy.Handlers.Ws.Gateway.Relays.{moves_of}
use hallmaster_proxy.Discord.{is_zlib_flush, decode}
use hallmaster_proxy.Visit.Place.{Place}
use hallmaster_proxy.Visit.Gateway.{session_events, frame_events, IsInspected, visit-relay}
use hallmaster_proxy.Sessions.{sessions_run, begin}
use hallmaster_proxy.Sessions.Isolated.{events_of, logging-IsStateless, sessions_run-run}
use hallmaster_proxy.Tests.Fixtures.{users_request, users_response}
use hallmaster_proxy.Tests.HttpsTests.{deps, answering}
use hallmaster_proxy.Tests.MitmTests.{connecting}
use hallmaster_proxy.Tests.WsTests.{copying as inflating, rounds, unmask}

abbrev gateway_request : Request
gateway_request = record users_request {
  host = codes "gateway.discord.gg";
  raw_query = codes "v=10&compress=zlib-stream";
  header = ("Connection", codes "Upgrade" ∷ []) ∷ ("Upgrade", codes "websocket" ∷ []) ∷ [];
}

abbrev switching : Response
switching = record users_response { status = codes "101 Switching Protocols"; status_code = 101 }

abbrev copies : List Copy
copies =
    from_client (chunk (codes "GET /") false)
    ∷ from_server (chunk (codes "HTTP") false)
    ∷ from_client ended
    ∷ from_server (chunk (codes "/1.1") false)
    ∷ []

abbrev gateway_turns : List Turn
gateway_turns = asks gateway_request (answering switching) ∷ []

abbrev pub bot : List Turn → Visitor Log ℕ
bot turns = record {
  client = connecting;
  turns = turns;
  rounds = rounds;
  copies = copies;
  tamper_state = [];
  cipher = unmask;
  inflater = inflating;
}

pub connecting-IsTunnel : IsTunnel connecting
unfolding equal
connecting-IsTunnel =
    inr (b'C', record users_request { method = codes "CONNECT" }, refl, (λ h. cc), refl, refl, refl)

gateway-IsUpgraded : IsUpgraded deps gateway_request (answering switching) switching
unfolding equal should_intercept is_discord_host is_websocket_upgrade contains to_lower equal_fold
    get
gateway-IsUpgraded = record {
  no_connect = refl;
  intercepted = refl;
  websocket = refl;
  dialled = refl;
  sent = refl;
  answers = refl;
  switches = refl;
  mirrored = refl;
}

gateway-IsInspected : (d : Deps Log) → IsInspected d [] (bot gateway_turns) gateway_request
unfolding opening gateway is_zlib_flush has_suffix decode contains is_compressed
gateway-IsInspected d = record { returns = refl; free = refl }

visit-relay_test :
    let v = bot gateway_turns in
    (session_events (visit deps [] v)
      ≡ upgrade_events deps gateway_request (answering switching) switching)
    × (bot_receives (frame_events (visit deps [] v))
        ≡ relay (λ f. f.payload) (discord_side (moves_of rounds)))
    × (discord_receives (frame_events (visit deps [] v))
        ≡ relay (unmasked (link deps.tamperer unmask inflating true)) (bot_side (moves_of rounds)))
visit-relay_test =
    visit-relay deps [] (bot gateway_turns) gateway_request (answering switching) switching none []
      (logging-IsPassThrough true) connecting-IsTunnel refl refl gateway-IsUpgraded
      (gateway-IsInspected deps)

switching-IsGateway :
    IsGateway ascii_only toy_codecs container_config gateway_request (answering switching) switching
unfolding equal is_websocket_upgrade contains to_lower equal_fold get host_name split_host_port
    trim_suffix
switching-IsGateway = record {
  domain = codes "discord.gg";
  listed = Memᴰ.tail (Memᴰ.head refl);
  within = inr (codes "gateway", refl);
  no_connect = refl;
  websocket = refl;
  dialled = refl;
  sent = refl;
  answers = refl;
  switches = refl;
  mirrored = refl;
}

abbrev production : Deps Log
production = main_deps ascii_only toy_codecs container_config

visit-main_deps_example :
    let v = bot gateway_turns in
    (session_events (visit production [] v)
      ≡ upgrade_events production gateway_request (answering switching) switching)
    × (bot_receives (frame_events (visit production [] v))
        ≡ relay (λ f. f.payload) (discord_side (moves_of rounds)))
    × (discord_receives (frame_events (visit production [] v))
        ≡ relay
            (unmasked (link production.tamperer unmask inflating true))
            (bot_side (moves_of rounds)))
visit-main_deps_example =
    visit-main_deps ascii_only toy_codecs container_config [] (bot gateway_turns) gateway_request
      (answering switching) switching none [] connecting-IsTunnel refl refl switching-IsGateway
      (gateway-IsInspected production)

-- Two clients whose rounds interleave.
abbrev pub schedule : List (ℕ × Turn)
schedule =
    (1, asks users_request (answering users_response))
    ∷ (2, asks gateway_request (answering switching))
    ∷ (1, asks users_request (answering users_response))
    ∷ (1, broken (codes "EOF"))
    ∷ []

sessions_run-run_example :
    events_of 1 (sessions_run deps (begin []) [] schedule)
    ≡ run deps (start []) (
        asks users_request (answering users_response)
        ∷ asks users_request (answering users_response)
        ∷ [])
sessions_run-run_example =
    sessions_run-run deps [] schedule 1
      (asks users_request (answering users_response)
        ∷ asks users_request (answering users_response)
        ∷ [])
      (codes "EOF") (logging-IsStateless true) refl

pump-relays_example :
    let (last, events) = pump copying copies in
    (server_receives events ≡ client_sent (until_end copies))
    × (client_receives events ≡ server_sent (until_end copies))
    × (closes events ≡ one_if last.client_done + one_if last.server_done)
pump-relays_example = pump-relays copies
