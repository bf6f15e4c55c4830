-- ===== src/Handlers/Https/Upgraded.antt =====
-- A request that switches to WebSocket, as the first of a session.
use hallmaster_proxy.Base.{true, false, List, [], ◌∷◌, Option, none, some, ok, ◌≡◌, arith, ◌==◌}
use hallmaster_proxy.Text.{Bytes, codes, equal}
use hallmaster_proxy.Http.{Request, Response}
use hallmaster_proxy.Tamper.PassThrough.{IsPassThrough, whole_body, same_request_of}
use hallmaster_proxy.Handlers.Https.State.{
  Deps, Answers, Turn, asks, Event, start, dial, close_upstream, forward, respond, close_body,
  inspect,
}
use hallmaster_proxy.Handlers.Https.Exchange.{exchange, is_websocket_upgrade, is_compressed}
use hallmaster_proxy.Handlers.Https.{
  run, step, should_intercept, serve_request, leave_other_host, with_upstream, upstream_dial,
  proceed,
}

-- The bot asks for a WebSocket over an intercepted host, and Discord switches to it.
pub record IsUpgraded {S : Type 0} (deps : Deps S) (req : Request) (a : Answers) (read : Response)
    : Type 0 where
  pub no_connect : equal req.method (codes "CONNECT") ≡ false
  pub intercepted : should_intercept deps req.host ≡ true
  pub websocket : is_websocket_upgrade deps.unicode req ≡ true
  pub dialled : a.dial (upstream_dial deps req a) ≡ none
  pub sent : a.write_request req ≡ none
  pub answers : a.read_response req ≡ ok read
  pub switches : (read.status_code == 101) ≡ true
  pub mirrored : a.write_response (record read { request = some req }) ≡ none

-- What HttpsHandler does then, from its start to its return.
abbrev pub upgrade_events : {S : Type 0} → Deps S → Request → Answers → Response → List Event
upgrade_events deps req a read =
    dial (upstream_dial deps req a) 0
    ∷ forward 0 req.host req
    ∷ respond 0 (record read { request = some req })
    ∷ close_body
    ∷ inspect 0 0 (is_compressed req)
    ∷ close_upstream 0
    ∷ []

pub run-upgrade_events :
    {S : Type 0} (deps : Deps S) (pass : IsPassThrough deps.tamperer) (t : S) (req : Request)
    (a : Answers) (read : Response) (b : Option Bytes) (rest : List Turn)
    → req.body ≡ whole_body b
    → IsUpgraded deps req a read
    → run deps (start t) (asks req a ∷ rest) ≡ upgrade_events deps req a read
unfolding run step serve_request leave_other_host with_upstream proceed exchange
run-upgrade_events deps pass t req a read b rest body h = ground (
  arith,
  same_request_of deps.tamperer pass req b t body,
  h.no_connect,
  h.intercepted,
  h.websocket,
  h.dialled,
  h.sent,
  h.answers,
  h.switches,
  h.mirrored,
)
