-- ===== src/Tests/ServedTests.antt =====
-- REST requests through the proxy that main starts.
use mathlib.Core.List.{Memᴰ}
use hallmaster_proxy.Base.{List, [], ◌∷◌, ◌≡◌, refl, inl}
use hallmaster_proxy.Text.{codes, equal, to_lower, trim_suffix}
use hallmaster_proxy.Net.{split_host_port}
use hallmaster_proxy.Http.Fields.{get}
use hallmaster_proxy.Httpio.{is_binary}
use hallmaster_proxy.Tamper.Logging.{Log}
use hallmaster_proxy.Handlers.Host.{host_name}
use hallmaster_proxy.Handlers.Host.Accepts.{IsWithin}
use hallmaster_proxy.Handlers.Https.State.{Deps, Event, dial}
use hallmaster_proxy.Handlers.Https.Exchange.{is_websocket_upgrade}
use hallmaster_proxy.Handlers.Https.{upstream_dial}
use hallmaster_proxy.Handlers.Https.Mirror.{IsAnswered}
use hallmaster_proxy.Handlers.Https.KeepAlive.{IsWhole, IsServed, turns_of}
use hallmaster_proxy.Config.{main_deps}
use hallmaster_proxy.Visit.{visit}
use hallmaster_proxy.Visit.Gateway.{session_events}
use hallmaster_proxy.Visit.Served.{visit-IsServed}
use hallmaster_proxy.Sessions.{sessions_run, begin}
use hallmaster_proxy.Sessions.Isolated.{events_of}
use hallmaster_proxy.Sessions.Served.{sessions_run-IsServed}
use hallmaster_proxy.Tests.Fixtures.{ascii_only, toy_codecs, users_request, users_response}
use hallmaster_proxy.Tests.HttpsTests.{answering}
use hallmaster_proxy.Tests.SessionTests.{users_exchange}
use hallmaster_proxy.Tests.ConfigTests.{container_config}
use hallmaster_proxy.Tests.VisitTests.{bot, connecting-IsTunnel, schedule}

abbrev production : Deps Log
production = main_deps ascii_only toy_codecs container_config

users_IsAnswered : IsAnswered production users_request (answering users_response) users_response
unfolding main_deps is_websocket_upgrade is_binary get
users_IsAnswered = record { sent = refl; answers = refl; no_websocket = refl; textual = refl }

users_IsWhole : IsWhole production (codes "discord.com") users_exchange
unfolding equal
users_IsWhole = record {
  no_connect = refl;
  same_host = refl;
  readable = refl;
  answered = users_IsAnswered;
  whole = refl;
  taken = λ resp. refl;
}

discord-IsWithin : IsWithin (codes "discord.com") (host_name ascii_only (codes "discord.com"))
unfolding host_name split_host_port trim_suffix to_lower
discord-IsWithin = inl refl

visit-IsServed_example :
    (events : List Event) × (session_events
        (visit production [] (bot (turns_of (users_exchange ∷ users_exchange ∷ []))))
      ≡ dial (upstream_dial production users_request (answering users_response)) 0 ∷ events)
    × IsServed (codes "discord.com") (users_exchange ∷ users_exchange ∷ []) events
visit-IsServed_example =
    visit-IsServed ascii_only toy_codecs container_config []
      (bot (turns_of (users_exchange ∷ users_exchange ∷ []))) (codes "discord.com")
      (codes "discord.com") users_exchange (users_exchange ∷ []) connecting-IsTunnel refl
      (Memᴰ.head refl) discord-IsWithin refl (users_IsWhole, (users_IsWhole, tt))

sessions_run-IsServed_example :
    (events : List Event) × (events_of 1 (sessions_run production (begin []) [] schedule)
      ≡ dial (upstream_dial production users_request (answering users_response)) 0 ∷ events)
    × IsServed (codes "discord.com") (users_exchange ∷ users_exchange ∷ []) events
sessions_run-IsServed_example =
    sessions_run-IsServed ascii_only toy_codecs container_config [] schedule 1 (codes "discord.com")
      (codes "discord.com") users_exchange (users_exchange ∷ []) (codes "EOF") refl (Memᴰ.head refl)
      discord-IsWithin refl (users_IsWhole, (users_IsWhole, tt))
