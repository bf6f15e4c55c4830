-- ===== src/Tests/HttpsTests.antt =====
-- Client sessions.
use hallmaster_proxy.Base.{
  false, All, ℕ, ◌+◌, ◌≤◌, true, List, [], ◌∷◌, none, some, ok, err, ◌≡◌, refl, arith,
}
use hallmaster_proxy.Text.{Bytes, codes, equal}
use hallmaster_proxy.Net.{split_host_port}
use hallmaster_proxy.Dns.{target}
use hallmaster_proxy.Http.{Body, Request, Response}
use hallmaster_proxy.Http.Fields.{get}
use hallmaster_proxy.Httpio.{is_binary, encode, decode_body}
use hallmaster_proxy.Httpio.Frame.{IsFramed}
use hallmaster_proxy.Tamper.{Tamperer}
use hallmaster_proxy.Tamper.Logging.{Log, logging}
use hallmaster_proxy.Tamper.PassThrough.{logging-IsPassThrough}
use hallmaster_proxy.Tamper.Latency.{latency, new_latency_tamperer}
use hallmaster_proxy.Tamper.Latency.Measured.{run-latency}
use hallmaster_proxy.Handlers.Host.{is_discord_host}
use hallmaster_proxy.Handlers.Https.State.{
  Deps, Session, Event, Answers, Turn, asks, start, established, dial, close_upstream, forward,
  respond, close_body, pump, returns,
}
use hallmaster_proxy.Handlers.Https.Exchange.{is_websocket_upgrade, exchange, settle}
use hallmaster_proxy.Handlers.Https.{step, run, upstream_dial, max_connect_depth}
use hallmaster_proxy.Handlers.Https.Upstream.{idle, follow_all, run-Follows}
use hallmaster_proxy.Handlers.Https.Depth.{handshakes, run-handshakes}
use hallmaster_proxy.Handlers.Https.Mirror.{IsAnswered, exchange_whole, exchange_broken}
use hallmaster_proxy.Handlers.Https.Erased.{erase}
use hallmaster_proxy.Handlers.Https.Fallback.{IsHarmless, nop_deps, run_harmless}
use hallmaster_proxy.Handlers.Https.Route.{IsOver, step-IsOver, upstream_dial-resolve}
use hallmaster_proxy.Tests.Fixtures.{
  ascii_only, toy_codecs, users_request, users_body, users_response,
}
use hallmaster_proxy.Tests.DnsTests.{one_address, one_address-IsAddress, resolved}

abbrev with_tamperer : {S : Type 0} → Tamperer S → Deps S
with_tamperer t = record {
  proxy_host_port = codes "hallmaster-proxy:443";
  clean_hostname = codes "hallmaster-proxy";
  tamperer = t;
  upstream_tls_config = none;
  unicode = ascii_only;
  codecs = toy_codecs;
}

abbrev pub deps : Deps Log
deps = with_tamperer (logging true)

-- All calls succeed, and every request is answered with `resp`.
abbrev pub answering : Response → Answers
answering resp = record {
  handshake = λ host. none;
  resolve = λ host. ok (codes "[2606:4700::1]:8443");
  dial = λ d. none;
  write_request = λ req. none;
  read_response = λ req. ok resp;
  write_response = λ resp. none;
}

abbrev connect_request : Request
connect_request = record users_request { method = codes "CONNECT"; host = codes "discord.com:443" }

abbrev other_request : Request
other_request = record users_request { host = codes "example.com:443" }

abbrev pub two_hosts : List Turn
two_hosts =
    asks connect_request (answering users_response)
    ∷ asks users_request (answering users_response)
    ∷ asks users_request (answering users_response)
    ∷ asks other_request (answering users_response)
    ∷ []

-- What a session does, as numbers: 1 handshake, 2 dial, 3 close, 4 request, 5 response, 6 body, 7 copy.
abbrev kind : Event → ℕ
kind (established layer host) = 1
kind (dial d conn) = 2
kind (close_upstream conn) = 3
kind (forward conn host req) = 4
kind (respond layer resp) = 5
kind close_body = 6
kind (pump conn layer) = 7
kind _ = 8

abbrev kinds : List Event → List ℕ
kinds [] = []
kinds (e ∷ events) = kind e ∷ kinds events

-- One dial serves both requests to discord.com; the other host is dialled anew and copied blindly.
two_hosts-run :
    kinds (run deps (start []) two_hosts) ≡ 1 ∷ 2 ∷ 4 ∷ 5 ∷ 6 ∷ 4 ∷ 5 ∷ 6 ∷ 3 ∷ 2 ∷ 4 ∷ 7 ∷ 3 ∷ []
unfolding run is_discord_host exchange get logging encode decode_body
two_hosts-run = refl

run-Follows_example : follow_all idle (run deps (start []) two_hosts) ≡ some idle
run-Follows_example = run-Follows deps (start []) two_hosts

run-handshakes_example : handshakes (run deps (start []) two_hosts) + 0 ≤ max_connect_depth
run-handshakes_example = run-handshakes deps (start []) two_hosts (omega arith)

pub users_IsAnswered : IsAnswered deps users_request (answering users_response) users_response
unfolding is_websocket_upgrade is_binary get
users_IsAnswered = record { sent = refl; answers = refl; no_websocket = refl; textual = refl }

exchange_whole_test :
    (framed : Response) × ((exchange deps (start []) users_request (answering users_response) 0).0
      ≡ forward 0 (codes "discord.com") users_request ∷ respond 0 framed ∷ close_body ∷ [])
    × IsFramed users_response users_body framed
exchange_whole_test =
    exchange_whole deps (logging-IsPassThrough true) (start []) users_request
      (answering users_response) 0 none users_response users_body refl users_IsAnswered refl

abbrev cut_body : Body
cut_body = record { bytes = codes "{"; broken = true; again = true }

abbrev cut_response : Response
cut_response = record users_response { body = some cut_body }

cut_IsAnswered : IsAnswered deps users_request (answering cut_response) cut_response
unfolding is_websocket_upgrade is_binary get
cut_IsAnswered = record { sent = refl; answers = refl; no_websocket = refl; textual = refl }

exchange_broken_example :
    let ran = exchange deps (start []) users_request (answering cut_response) 0 in
    (true ≡ true
      → (ran.0 ≡ forward 0 (codes "discord.com") users_request ∷ close_body ∷ [])
        × (returns ran.1 ≡ true))
    × (true ≡ false
        → (framed : Response) × (ran.0
            ≡ forward 0 (codes "discord.com") users_request ∷ respond 0 framed ∷ close_body ∷ [])
          × IsFramed cut_response [] framed)
exchange_broken_example =
    exchange_broken deps (logging-IsPassThrough true) (start []) users_request
      (answering cut_response) 0 none cut_response cut_body refl cut_IsAnswered refl refl

-- A tamperer that counts its calls and fails each time.
abbrev failing : Tamperer ℕ
failing = record {
  request = λ req n. (n + 1, record { argument = req; result = err (codes "no") });
  response = λ req resp d n. (n + 1, record { argument = resp; result = err (codes "no") });
  ws_incoming = λ payload n. (n + 1, err (codes "no"));
  ws_outgoing = λ payload n. (n + 1, err (codes "no"));
}

failing-IsHarmless : IsHarmless failing
unfolding settle
failing-IsHarmless = record {
  request_settles = λ req n. refl;
  response_settles = λ req resp d n. refl;
}

run_harmless_example :
    run (with_tamperer failing) (start 0) two_hosts
    ≡ run (nop_deps (with_tamperer failing)) (erase {S = ℕ} (start 0)) two_hosts
run_harmless_example = run_harmless (with_tamperer failing) failing-IsHarmless (start 0) two_hosts

abbrev opened : Session Log
opened = record (start {S = Log} []) {
  server = some 0;
  dialled_host = codes "discord.com";
  dials = 1;
}

step-IsOver_test : All (IsOver 0) (step deps opened users_request (answering users_response)).0
unfolding equal
step-IsOver_test = step-IsOver deps opened users_request (answering users_response) 0 refl refl refl

abbrev port_request : Request
port_request = record users_request { host = codes "discord.com:8443" }

upstream_dial-resolve_example :
    (ip : Bytes) × (ips : List Bytes) × (one_address (target port_request.host).0 ≡ ok (ip ∷ ips))
    × (split_host_port (upstream_dial deps port_request (answering users_response)).address
        ≡ ok (ip, (target port_request.host).1))
    × ((upstream_dial deps port_request (answering users_response)).config.server_name
        ≡ port_request.host)
unfolding is_discord_host
upstream_dial-resolve_example =
    upstream_dial-resolve deps port_request (answering users_response) one_address refl
      one_address-IsAddress resolved refl

run-latency_test :
    run (with_tamperer latency) (start (new_latency_tamperer 1 (λ i. i))) two_hosts
    ≡ run
        (nop_deps (with_tamperer latency))
        (erase (start (new_latency_tamperer 1 (λ i. i))))
        two_hosts
run-latency_test =
    run-latency (with_tamperer latency) (start (new_latency_tamperer 1 (λ i. i))) two_hosts refl
