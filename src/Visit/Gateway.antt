-- ===== src/Visit/Gateway.antt =====
-- A bot's gateway connection from end to end: TLS, the upgrade to WebSocket, and the frames.
use hallmaster_proxy.Base.{
  Bool, true, false, &&-eq-true, List, [], ◌∷◌, ◌++◌, Option, ◌≡◌, refl, ap, ◌∙◌, append-nil, inl,
  inr, if◌then◌else◌, map,
}
use hallmaster_proxy.Text.{Bytes}
use hallmaster_proxy.Http.{Request, Response}
use hallmaster_proxy.Tamper.PassThrough.{IsPassThrough, whole_body}
use hallmaster_proxy.Handlers.Https.State.{Deps, Answers, Turn, asks}
use hallmaster_proxy.Handlers.Https.State
use hallmaster_proxy.Handlers.Https.Exchange.{is_compressed}
use hallmaster_proxy.Handlers.Https.{run}
use hallmaster_proxy.Handlers.Https.Upgraded.{IsUpgraded, upgrade_events, run-upgrade_events}
use hallmaster_proxy.Handlers.Https.Pump.{copying}
use hallmaster_proxy.Handlers.Https.Pump
use hallmaster_proxy.Handlers.Ws.{unmasked}
use hallmaster_proxy.Handlers.Ws
use hallmaster_proxy.Handlers.Ws.Relay.{
  bot_receives, discord_receives, discord_side, bot_side, relay,
}
use hallmaster_proxy.Handlers.Ws.Gateway.{link, opening, has_returned}
use hallmaster_proxy.Handlers.Ws.Gateway.Relays.{
  moves_of, bot_receives-relay, discord_receives-relay,
}
use hallmaster_proxy.Mitm.{handle_http_conn}
use hallmaster_proxy.Mitm
use hallmaster_proxy.Mitm.Connection.{IsTunnel}
use hallmaster_proxy.Mitm.Tunnel.{handle_http_conn_lem}
use hallmaster_proxy.Visit.{
  Visitor, Event, session, framed, copied, inspected, frames, in_session, in_sessions, comes_back,
  all_back, in_connections, visit,
}

-- The handler's part of a connection's events, and InspectWS's.
abbrev pub session_events : List Event → List State.Event
session_events [] = []
session_events (session e ∷ events) = e ∷ session_events events
session_events (_ ∷ events) = session_events events

abbrev pub frame_events : List Event → List Ws.Event
frame_events [] = []
frame_events (framed e ∷ events) = e ∷ frame_events events
frame_events (_ ∷ events) = frame_events events

session_events-framed :
    (inner : List Ws.Event) (events : List Event)
    → session_events (map framed inner ++ events) ≡ session_events events
session_events-framed [] events = refl
session_events-framed (e ∷ inner) events = session_events-framed inner events

frame_events-framed :
    (inner : List Ws.Event) (events : List Event)
    → frame_events (map framed inner ++ events) ≡ inner ++ frame_events events
frame_events-framed [] events = refl
frame_events-framed (e ∷ inner) events = ap (λ es. e ∷ es) (frame_events-framed inner events)

session_events-append :
    (a b : List Event) → session_events (a ++ b) ≡ session_events a ++ session_events b
session_events-append [] b = refl
session_events-append (session e ∷ a) b = ap (λ es. e ∷ es) (session_events-append a b)
session_events-append (_ ∷ a) b = session_events-append a b

frame_events-append : (a b : List Event) → frame_events (a ++ b) ≡ frame_events a ++ frame_events b
frame_events-append [] b = refl
frame_events-append (framed e ∷ a) b = ap (λ es. e ∷ es) (frame_events-append a b)
frame_events-append (_ ∷ a) b = frame_events-append a b

session_events-copied :
    (inner : List Pump.Event) (events : List Event)
    → session_events (map copied inner ++ events) ≡ session_events events
session_events-copied [] events = refl
session_events-copied (e ∷ inner) events = session_events-copied inner events

session_events-in_session :
    {S I : Type 0} (deps : Deps S) (v : Visitor S I) (e : State.Event) (events : List Event)
    → session_events (in_session deps v e ++ events) ≡ e ∷ session_events events
session_events-in_session deps v (State.inspect conn layer compressed) events =
    ap (λ es. State.inspect conn layer compressed ∷ es)
      (session_events-framed (frames deps v compressed) events)
session_events-in_session deps v (State.pump conn layer) events =
    ap (λ es. State.pump conn layer ∷ es)
      (session_events-copied (Pump.pump copying v.copies).1 events)
session_events-in_session deps v (State.established layer host) events = refl
session_events-in_session deps v (State.dial d conn) events = refl
session_events-in_session deps v (State.close_upstream conn) events = refl
session_events-in_session deps v (State.forward conn host req) events = refl
session_events-in_session deps v (State.respond layer resp) events = refl
session_events-in_session deps v State.close_body events = refl

-- The handler's events stand in a connection in their order, if all that it waits for returns.
pub session_events-in_sessions :
    {S I : Type 0} (deps : Deps S) (v : Visitor S I) (events : List State.Event)
    → all_back deps v events ≡ true
    → session_events (in_sessions deps v events) ≡ events
unfolding in_sessions all_back
session_events-in_sessions deps v [] h = refl
session_events-in_sessions deps v (e ∷ events) h =
    let (back, later) = &&-eq-true (comes_back deps v e) (all_back deps v events) h in
    rw back (
      session_events-in_session deps v e (in_sessions deps v events)
      ∙ ap (λ es. e ∷ es) (session_events-in_sessions deps v events later))

module _ {S I : Type 0} (deps : Deps S) (t : S) (v : Visitor S I) where
  closing-quiet :
      (back : Bool)
      → let rest = if back then in_connections deps t v (Mitm.close_client ∷ []) else [] in
        (session_events rest ≡ []) × (frame_events rest ≡ [])
  unfolding in_connections
  closing-quiet true = (refl, refl)
  closing-quiet false = (refl, refl)

  -- Of the events of a tunnel, the handler's are the session's.
  pub visit_tunnel :
      IsTunnel v.client
      → let inner = in_sessions deps v (run deps (State.start t) v.turns) in
        (session_events (visit deps t v) ≡ session_events inner)
        × (frame_events (visit deps t v) ≡ frame_events inner)
  unfolding visit in_connections
  visit_tunnel tunnel =
      let inner = in_sessions deps v (run deps (State.start t) v.turns) in
      let back = all_back deps v (run deps (State.start t) v.turns) in
      let rest = if back then in_connections deps t v (Mitm.close_client ∷ []) else [] in
      let (quiet, still) = closing-quiet back in
      let kept_session =
        session_events-append inner rest
        ∙ ap (λ es. session_events inner ++ es) quiet
        ∙ append-nil (session_events inner) in
      let kept_frames =
        frame_events-append inner rest
        ∙ ap (λ es. frame_events inner ++ es) still
        ∙ append-nil (frame_events inner) in
      elim (handle_http_conn_lem v.client tunnel) [
        | inl e ↦ rw e (kept_session, kept_frames)
        | inr (host, e) ↦ rw e (kept_session, kept_frames)
      ]

  -- InspectWS returns, and no call of the decoder has blocked.
  pub record IsInspected (req : Request) : Type 0 where
    pub returns : has_returned (inspected deps v (is_compressed req)).0 ≡ true
    pub free : (inspected deps v (is_compressed req)).0.stuck ≡ false

  upgrade_inner :
      (req : Request) (a : Answers) (read : Response)
      → IsInspected req
      → let inner = in_sessions deps v (upgrade_events deps req a read) in
        (session_events inner ≡ upgrade_events deps req a read)
        × (frame_events inner ≡ frames deps v (is_compressed req))
  unfolding in_sessions all_back
  upgrade_inner req a read h =
      let fs = frames deps v (is_compressed req) in
      let last = session (State.close_upstream 0) ∷ [] in
      (
        session_events-in_sessions deps v (upgrade_events deps req a read) (rw h.returns refl),
        rw h.returns (frame_events-framed fs last ∙ append-nil fs),
      )

  -- A bot that opens a tunnel and asks, first thing and by no CONNECT, for a WebSocket on an intercepted host, with a
  -- body that can be read, if any; where the upstream can be reached and switches, the request and
  -- the response can be written, the tamperer rewrites nothing, both pumps return, and no call of
  -- the decoder blocks: the handler dials once, sends the request as it came, mirrors the response
  -- with its body closed, inspects the frames, and closes the upstream at the end, whatever was to
  -- follow; and up to the first close frame or failed write of each direction, the bot receives the
  -- frames that Discord sent, with the payloads as they were on the wire, and Discord the bot's,
  -- unmasked.
  pub visit-relay :
      (req : Request) (a : Answers) (read : Response) (b : Option Bytes) (rest : List Turn)
      → IsPassThrough deps.tamperer
      → IsTunnel v.client
      → v.turns ≡ asks req a ∷ rest
      → req.body ≡ whole_body b
      → IsUpgraded deps req a read
      → IsInspected req
      → (session_events (visit deps t v) ≡ upgrade_events deps req a read)
        × (bot_receives (frame_events (visit deps t v))
            ≡ relay (λ f. f.payload) (discord_side (moves_of v.rounds)))
        × (discord_receives (frame_events (visit deps t v))
            ≡ relay
                (unmasked (link deps.tamperer v.cipher v.inflater true))
                (bot_side (moves_of v.rounds)))
  unfolding opening
  visit-relay req a read b rest pass tunnel first body h ins =
      let (sessions, framings) = visit_tunnel tunnel in
      let runs =
        ap (run deps (State.start t)) first
        ∙ run-upgrade_events deps pass t req a read b rest body h in
      let inner = ap (in_sessions deps v) runs in
      let (ours, theirs) = upgrade_inner req a read ins in
      let fs = framings ∙ ap frame_events inner ∙ theirs in
      let g = opening v.tamper_state (is_compressed req) in
      (
        sessions ∙ ap session_events inner ∙ ours,
        ap bot_receives fs
            ∙ bot_receives-relay deps.tamperer v.cipher v.inflater pass g v.rounds ins.free,
        ap discord_receives fs
            ∙ discord_receives-relay deps.tamperer v.cipher v.inflater pass g v.rounds,
      )
