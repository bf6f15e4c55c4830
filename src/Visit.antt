-- ===== src/Visit.antt =====
-- One client connection from its first byte to its close: handleHTTPConn of proxy/internals/mitm.go
-- with HttpsHandler of handlers/https.go in it, and in that the blind pump, or InspectWS of
-- handlers/ws.go.
pub mod Place
pub mod Ordered
pub mod Gateway
pub mod Production
pub mod Served
use hallmaster_proxy.Base.{
  Bool, true, ◌&&◌, List, [], ◌∷◌, ◌++◌, Option, none, some, Result, if◌then◌else◌, map,
}
use hallmaster_proxy.Text.{Bytes}
use hallmaster_proxy.Handlers.Https.State.{Deps, Turn, inspect, pump}
use hallmaster_proxy.Handlers.Https.State
use hallmaster_proxy.Handlers.Https
use hallmaster_proxy.Handlers.Https.Pump.{Copy, copying}
use hallmaster_proxy.Handlers.Https.Pump
use hallmaster_proxy.Discord.{Inflater}
use hallmaster_proxy.Handlers.Ws.Gateway.{
  Gateway as WsGateway, Round, opening, has_returned, gateway,
}
use hallmaster_proxy.Handlers.Ws
use hallmaster_proxy.Mitm.{Client, handle, handle_http_conn}
use hallmaster_proxy.Mitm

-- What a client and its upstreams bring: how the connection begins, the requests with what the
-- environment answers, and what both sides send behind an upgrade, or through the blind pump.
-- `tamper_state` is the shared tamperer's state when the frames begin.
pub record Visitor (S I : Type 0) : Type 0 where
  pub client : Client
  pub turns : List Turn
  pub rounds : List Round
  pub copies : List Copy
  pub tamper_state : S
  pub cipher : Bytes → Bytes → Bytes
  pub inflater : Inflater I

pub data Event : Type 0 where
  outer : Mitm.Event → Event
  session : State.Event → Event
  framed : Ws.Event → Event
  copied : Pump.Event → Event

module _ {S I : Type 0} where
  -- InspectWS has a decoder if the stream is compressed.
  abbrev pub inspected : Deps S → Visitor S I → Bool → WsGateway S I × List Ws.Event
  inspected deps v compressed =
      gateway deps.tamperer v.cipher v.inflater (opening v.tamper_state compressed) v.rounds

  abbrev pub frames : Deps S → Visitor S I → Bool → List Ws.Event
  frames deps v compressed = (inspected deps v compressed).1

  abbrev pub in_session : Deps S → Visitor S I → State.Event → List Event
  in_session deps v (inspect conn layer compressed) =
      session (inspect conn layer compressed) ∷ map framed (frames deps v compressed)
  in_session deps v (pump conn layer) =
      session (pump conn layer) ∷ map copied (Pump.pump copying v.copies).1
  in_session deps v e = session e ∷ []

  -- wg.Wait, in InspectWS and behind the two copies: the handler goes on when both have returned.
  abbrev pub comes_back : Deps S → Visitor S I → State.Event → Bool
  comes_back deps v (inspect conn layer compressed) = has_returned (inspected deps v compressed).0
  comes_back deps v (pump conn layer) =
      (Pump.pump copying v.copies).0.client_done && (Pump.pump copying v.copies).0.server_done
  comes_back deps v e = true

  unfoldable pub in_sessions : Deps S → Visitor S I → List State.Event → List Event
  in_sessions deps v [] = []
  in_sessions deps v (e ∷ events) =
      let later = in_sessions deps v events in
      in_session deps v e ++ (if comes_back deps v e then later else [])

  -- The handler returns.
  unfoldable pub all_back : Deps S → Visitor S I → List State.Event → Bool
  all_back deps v [] = true
  all_back deps v (e ∷ events) = comes_back deps v e && all_back deps v events

  -- The handler runs where handleDirectTLS calls it.
  abbrev pub in_connection : Deps S → S → Visitor S I → Mitm.Event → List Event
  in_connection deps t v handle =
      outer handle ∷ in_sessions deps v (Https.run deps (State.start t) v.turns)
  in_connection deps t v e = outer e ∷ []

  abbrev pub goes_on : Deps S → S → Visitor S I → Mitm.Event → Bool
  goes_on deps t v handle = all_back deps v (Https.run deps (State.start t) v.turns)
  goes_on deps t v e = true

  unfoldable pub in_connections : Deps S → S → Visitor S I → List Mitm.Event → List Event
  unfolding in_sessions all_back
  in_connections deps t v [] = []
  in_connections deps t v (e ∷ events) =
      let later = in_connections deps t v events in
      in_connection deps t v e ++ (if goes_on deps t v e then later else [])

  -- All that happens on one connection, the tamperer being in state `t` when the handler begins.
  unfoldable pub visit : Deps S → S → Visitor S I → List Event
  unfolding in_connections
  visit deps t v = in_connections deps t v (handle_http_conn v.client)

  -- The connection's goroutine comes to its end.
  unfoldable pub all_go_on : Deps S → S → Visitor S I → List Mitm.Event → Bool
  unfolding all_back
  all_go_on deps t v [] = true
  all_go_on deps t v (e ∷ events) = goes_on deps t v e && all_go_on deps t v events

  abbrev pub visit_ends : Deps S → S → Visitor S I → Bool
  visit_ends deps t v = all_go_on deps t v (handle_http_conn v.client)
