-- ===== src/Handlers/Https.antt =====
-- HttpsHandler, proxy/internals/handlers/https.go: one client session as a loop over the requests
-- that arrive, with what the environment answers in each round.
pub mod State
pub mod Exchange
pub mod Upstream
pub mod Depth
pub mod Mirror
pub mod Observed
pub mod Erased
pub mod Fallback
pub mod Route
pub mod Upgraded
pub mod KeepAlive
pub mod Client
pub mod Pump
use hallmaster_proxy.Base.{
  ℕ, ◌+◌, Bool, true, false, not, ◌&&◌, ◌||◌, List, [], ◌∷◌, ◌++◌, Option, none, some, Result, ok,
  err, leb, if◌then◌else◌,
}
use hallmaster_proxy.Text.{Bytes, codes, equal}
use hallmaster_proxy.Http.{Request}
use hallmaster_proxy.Handlers.Host.{is_discord_host}
use hallmaster_proxy.Handlers.Https.State.{
  Deps, Session, Event, Answers, Turn, broken, asks, Dial, TlsConfig, Ran, Outcome, next, stop,
  emit, established, close_upstream, dial, forward, pump, drop_upstream, close_at_return,
}
use hallmaster_proxy.Handlers.Https.Exchange.{exchange}

abbrev pub max_connect_depth : ℕ
max_connect_depth = 4

abbrev address_or : Bytes → Result Bytes Bytes → Bytes
address_or host (ok address) = address
address_or host (err e) = host

abbrev base_config : Option TlsConfig → TlsConfig
base_config none = record {
  root_cas = [];
  insecure_skip_verify = false;
  server_name = [];
  next_protos = [];
}
base_config (some config) = config

module _ {S : Type 0} where
  unfoldable pub is_relay : Deps S → Bytes → Bool
  unfolding equal
  is_relay deps host = equal host deps.proxy_host_port || equal host deps.clean_hostname

  unfoldable pub should_intercept : Deps S → Bytes → Bool
  unfolding is_relay
  should_intercept deps host = is_relay deps host || is_discord_host deps.unicode host

  upgrade : Session S → Option Bytes → Ran S
  upgrade s (some e) = ([], stop s)
  upgrade s none =
      let (dropped, events) = drop_upstream s in
      (events, next (record dropped { layer = s.layer + 1; connect_depth = s.connect_depth + 1 }))

  -- A nested CONNECT: acknowledge, terminate TLS for its host, drop the upstream.
  pub connect : Session S → Request → Answers → Ran S
  unfolding upgrade
  connect s req a =
      if leb max_connect_depth s.connect_depth
      then ([], stop s)
      else emit (established s.layer req.host ∷ []) (upgrade s (a.handshake req.host))

  -- The address to dial: Discord's hosts go through the external resolver.
  unfoldable pub target_host : Deps S → Bytes → Answers → Bytes
  target_host deps host a =
      if is_discord_host deps.unicode host then address_or host (a.resolve host) else host

  unfoldable pub upstream_config : Deps S → Bytes → TlsConfig
  upstream_config deps host = record (base_config deps.upstream_tls_config) {
    server_name = host;
    next_protos = codes "http/1.1" ∷ [];
  }

  abbrev pub upstream_dial : Deps S → Request → Answers → Dial
  upstream_dial deps req a = record {
    network = codes "tcp";
    address = target_host deps req.host a;
    config = upstream_config deps req.host;
  }

  -- The upstream of another host is closed.
  unfoldable pub leave_other_host : Session S → Bytes → Session S × List Event
  unfolding equal drop_upstream
  leave_other_host s host =
      if equal host s.dialled_host
      then (s, [])
      else (record (drop_upstream s).0 { dialled_host = s.dialled_host }, (drop_upstream s).1)

  -- What follows once an upstream is there: a blind pump, or the exchange under inspection.
  pub proceed : Deps S → Session S → Request → Answers → ℕ → Ran S
  unfolding should_intercept
  proceed deps s req a conn =
      if should_intercept deps req.host then exchange deps s req a conn else (
        forward conn req.host req
            ∷ elim (a.write_request req) [ none ↦ pump conn s.layer ∷ [] | some e ↦ [] ],
        stop s,
      )

  dialled : Deps S → Session S → Request → Answers → Dial → Option Bytes → Ran S
  unfolding proceed
  dialled deps s req a d (some e) = ([], stop s)
  dialled deps s req a d none = emit (dial d s.dials ∷ []) (
      proceed deps
        (record s { server = some s.dials; dialled_host = req.host; dials = s.dials + 1 }) req a
        s.dials)

  -- Dial if there is no upstream.
  pub with_upstream : Deps S → Session S → Request → Answers → Option ℕ → Ran S
  unfolding dialled target_host upstream_config
  with_upstream deps s req a (some conn) = proceed deps s req a conn
  with_upstream deps s req a none =
      let d = upstream_dial deps req a in dialled deps s req a d (a.dial d)

  pub serve_request : Deps S → Session S → Request → Answers → Ran S
  unfolding leave_other_host with_upstream
  serve_request deps s req a =
      let (s', events) = leave_other_host s req.host in
      emit events (with_upstream deps s' req a s'.server)

  -- One round of the loop, on a request that was read.
  unfoldable pub step : Deps S → Session S → Request → Answers → Ran S
  unfolding connect serve_request
  step deps s req a =
      if equal req.method (codes "CONNECT") then connect s req a else serve_request deps s req a

  unfoldable pub after : (Session S → List Event) → Outcome S → List Event
  unfolding close_at_return
  after rest (next s) = rest s
  after rest (stop s) = close_at_return s

  -- The loop: the events of the session, the deferred close included. It ends at the end of the
  -- input, at a request that cannot be read, and where a round returns.
  unfoldable pub run : Deps S → Session S → List Turn → List Event
  unfolding step after close_at_return
  run deps s [] = close_at_return s
  run deps s (broken e ∷ turns) = close_at_return s
  run deps s (asks req a ∷ turns) =
      let (events, outcome) = step deps s req a in events ++ after (λ s'. run deps s' turns) outcome
