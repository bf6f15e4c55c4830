-- ===== src/Tests/SessionTests.antt =====
-- Whole sessions.
use hallmaster_proxy.Base.{false, true, List, [], ◌∷◌, none, some, inl, ◌≡◌, refl}
use hallmaster_proxy.Text.{codes, equal}
use hallmaster_proxy.Tamper.Logging.{Log}
use hallmaster_proxy.Tamper.PassThrough.{logging-IsPassThrough}
use hallmaster_proxy.Handlers.Host.{is_discord_host}
use hallmaster_proxy.Handlers.Https.State.{
  Outcome, Event, start, dial, forward, respond, close_body, session_of,
}
use hallmaster_proxy.Handlers.Https.{run, should_intercept, upstream_dial}
use hallmaster_proxy.Handlers.Https.KeepAlive.{Exchange, IsWhole, IsServed, turns_of, run-IsServed}
use hallmaster_proxy.Tests.Fixtures.{users_request, users_body, users_response}
use hallmaster_proxy.Handlers.Https.Client.{waiting, follow_all, IsShut}
use hallmaster_proxy.Handlers.Https.Client.Ordered.{run-answers}
use hallmaster_proxy.Http.{Response, rewound}
use hallmaster_proxy.Http.Fields.{get}
use hallmaster_proxy.Httpio.{is_binary}
use hallmaster_proxy.Httpio.Observe.{gzip}
use hallmaster_proxy.Httpio.Frame.{IsFramed}
use hallmaster_proxy.Handlers.Https.Exchange.{exchange, is_websocket_upgrade}
use hallmaster_proxy.Handlers.Https.Mirror.{IsAnswered}
use hallmaster_proxy.Handlers.Https.Observed.{exchange_observed}
use hallmaster_proxy.Tests.HttpsTests.{deps, answering, two_hosts, users_IsAnswered}

run-answers_example : IsShut (follow_all (0, waiting false) (run deps (start []) two_hosts))
run-answers_example = run-answers deps [] two_hosts

abbrev pub users_exchange : Exchange
users_exchange = record {
  req = users_request;
  answers = answering users_response;
  read = users_response;
  sent_body = none;
  full = users_body;
}

users_exchange-IsWhole : IsWhole deps (codes "discord.com") users_exchange
unfolding equal
users_exchange-IsWhole = record {
  no_connect = refl;
  same_host = refl;
  readable = refl;
  answered = users_IsAnswered;
  whole = refl;
  taken = λ resp. refl;
}

discord_intercepted : should_intercept deps (codes "discord.com") ≡ true
unfolding should_intercept equal is_discord_host
discord_intercepted = refl

run-IsServed_test :
    (events : List Event) × (run deps (start []) (turns_of (users_exchange ∷ users_exchange ∷ []))
      ≡ dial (upstream_dial deps users_request (answering users_response)) 0 ∷ events)
    × IsServed (codes "discord.com") (users_exchange ∷ users_exchange ∷ []) events
run-IsServed_test =
    run-IsServed deps (logging-IsPassThrough true) (codes "discord.com") [] users_exchange
      (users_exchange ∷ []) discord_intercepted refl
      (users_exchange-IsWhole, (users_exchange-IsWhole, tt))

abbrev packed_response : Response
packed_response = record users_response {
  header = ("Content-Encoding", codes "gzip" ∷ []) ∷ [];
  body = some (rewound (codes "#ok"));
}

packed_IsAnswered : IsAnswered deps users_request (answering packed_response) packed_response
unfolding is_websocket_upgrade is_binary get
packed_IsAnswered = record { sent = refl; answers = refl; no_websocket = refl; textual = refl }

abbrev tampered : Outcome Log → Log
tampered outcome = (session_of outcome).tamper_state

exchange_observed_example :
    (tampered (exchange deps (start []) users_request (answering packed_response) 0).1
      ≡ (deps.tamperer.response users_request packed_response
          (some (codes "ok"))
          (deps.tamperer.request users_request []).0).0)
    × (framed : Response) × ((exchange deps
          (start [])
          users_request
          (answering packed_response)
          0).0
        ≡ forward 0 (codes "discord.com") users_request ∷ respond 0 framed ∷ close_body ∷ [])
    × IsFramed packed_response (codes "#ok") framed
unfolding get
exchange_observed_example =
    exchange_observed deps (logging-IsPassThrough true) (start []) users_request
      (answering packed_response) 0 none packed_response (codes "#ok") (some (codes "ok")) refl
      packed_IsAnswered refl (inl (gzip, refl, refl))
