-- ===== src/Handlers/Https/Erased.antt =====
-- What a session shows depends on its tamperer only through what its calls settle on.
use hallmaster_proxy.Base.{
  ℕ, ◌+◌, List, [], ◌∷◌, ◌++◌, Option, none, some, Result, ok, err, ◌≡◌, refl, sym, arith, ap, ◌∙◌,
}
use hallmaster_proxy.Text.{Bytes}
use hallmaster_proxy.Http.{Request, Response}
use hallmaster_proxy.Httpio.{decode_body}
use hallmaster_proxy.Tamper.{Tamperer}
use hallmaster_proxy.Handlers.Https.State.{
  Deps, Session, Event, Answers, Turn, broken, asks, Ran, Outcome, next, stop, drop_upstream, emit,
  forward, close_at_return,
}
use hallmaster_proxy.Handlers.Https.Exchange.{
  settle, decoded_or_nil, exchange, written, answered, mirror,
}
use hallmaster_proxy.Handlers.Https.{
  step, run, after, connect, serve_request, leave_other_host, with_upstream, proceed,
}

-- `u`, which has no state, settles on the same objects as `t` in whatever state.
pub record Mimics {S : Type 0} (t : Tamperer S) (u : Tamperer (Unit {0})) : Type 0 where
  pub request_settles :
      (req : Request) (s : S) → settle (t.request req s).1 ≡ settle (u.request req tt).1
  pub response_settles :
      (req : Request) (resp : Response) (d : Option Bytes) (s : S)
      → settle (t.response req resp d s).1 ≡ settle (u.response req resp d tt).1

abbrev pub stateless : {S : Type 0} → Tamperer (Unit {0}) → Deps S → Deps (Unit {0})
stateless u deps = record {
  proxy_host_port = deps.proxy_host_port;
  clean_hostname = deps.clean_hostname;
  tamperer = u;
  upstream_tls_config = deps.upstream_tls_config;
  unicode = deps.unicode;
  codecs = deps.codecs;
}

abbrev pub erase : {S : Type 0} → Session S → Session (Unit {0})
erase s = record {
  layer = s.layer;
  server = s.server;
  dialled_host = s.dialled_host;
  connect_depth = s.connect_depth;
  dials = s.dials;
  tamper_state = tt;
}

abbrev pub erase_outcome : {S : Type 0} → Outcome S → Outcome (Unit {0})
erase_outcome (next s) = next (erase s)
erase_outcome (stop s) = stop (erase s)

abbrev pub erased : {S : Type 0} → Ran S → Ran (Unit {0})
erased (events, outcome) = (events, erase_outcome outcome)

module _ {S : Type 0} (deps : Deps S) (u : Tamperer (Unit {0}))
    (mimics : Mimics deps.tamperer u) where
  mirror-erased :
      (s : Session S) (req : Request) (a : Answers) (resp : Response)
      → erased (mirror deps s req a resp) ≡ mirror (stateless u deps) (erase s) req a resp
  unfolding mirror
  mirror-erased s req a resp =
      let (left, decoded) = decode_body deps.unicode deps.codecs resp in
      ground (arith, mimics.response_settles req left (decoded_or_nil decoded) s.tamper_state)

  answered-erased :
      (s : Session S) (req : Request) (a : Answers) (conn : ℕ) (r : Result Bytes Response)
      → erased (answered deps s req a conn r) ≡ answered (stateless u deps) (erase s) req a conn r
  unfolding answered
  answered-erased s req a conn (err e) = refl
  answered-erased s req a conn (ok read) =
      ground (arith, mirror-erased s req a (record read { request = some req }))

  written-erased :
      (s : Session S) (req : Request) (a : Answers) (conn : ℕ) (o : Option Bytes)
      → erased (written deps s req a conn o) ≡ written (stateless u deps) (erase s) req a conn o
  unfolding written
  written-erased s req a conn (some e) = refl
  written-erased s req a conn none = answered-erased s req a conn (a.read_response req)

  exchange-erased :
      (s : Session S) (req : Request) (a : Answers) (conn : ℕ)
      → erased (exchange deps s req a conn) ≡ exchange (stateless u deps) (erase s) req a conn
  unfolding exchange
  exchange-erased s req a conn =
      let (t, tampered) = deps.tamperer.request req s.tamper_state in
      let final = settle tampered in
      ap (λ (ran : Ran (Unit {0})). emit (forward conn req.host final ∷ []) ran)
        (written-erased (record s { tamper_state = t }) final a conn (a.write_request final))
      ∙ ap
          (λ (f : Request).
            emit (forward conn req.host f ∷ [])
              (written (stateless u deps) (erase s) f a conn (a.write_request f)))
          (mimics.request_settles req s.tamper_state)

  proceed-erased :
      (s : Session S) (req : Request) (a : Answers) (conn : ℕ)
      → erased (proceed deps s req a conn) ≡ proceed (stateless u deps) (erase s) req a conn
  unfolding proceed
  proceed-erased s req a conn = ground (arith, exchange-erased s req a conn)

  with_upstream-erased :
      (s : Session S) (req : Request) (a : Answers) (o : Option ℕ)
      → erased (with_upstream deps s req a o) ≡ with_upstream (stateless u deps) (erase s) req a o
  unfolding with_upstream
  with_upstream-erased s req a (some conn) = proceed-erased s req a conn
  with_upstream-erased s req a none =
      let opened : Session S = record s {
        server = some s.dials;
        dialled_host = req.host;
        dials = s.dials + 1;
      } in
      ground (arith, proceed-erased opened req a s.dials)

  leave_other_host-erased :
      (s : Session S) (host : Bytes)
      → leave_other_host (erase s) host
        ≡ (erase (leave_other_host s host).0, (leave_other_host s host).1)
  unfolding leave_other_host
  leave_other_host-erased s host = ground arith

  serve_request-erased :
      (s : Session S) (req : Request) (a : Answers)
      → erased (serve_request deps s req a) ≡ serve_request (stateless u deps) (erase s) req a
  unfolding serve_request
  serve_request-erased s req a =
      let left = (leave_other_host s req.host).0 in
      ground
        (arith, leave_other_host-erased s req.host, with_upstream-erased left req a left.server)

  connect-erased :
      (s : Session S) (req : Request) (a : Answers)
      → erased (connect s req a) ≡ connect (erase s) req a
  unfolding connect drop_upstream
  connect-erased s req a = ground arith

  pub step-erased :
      (s : Session S) (req : Request) (a : Answers)
      → erased (step deps s req a) ≡ step (stateless u deps) (erase s) req a
  unfolding step
  step-erased s req a = ground (arith, connect-erased s req a, serve_request-erased s req a)

  pub close_at_return-erased : (s : Session S) → close_at_return (erase s) ≡ close_at_return s
  unfolding close_at_return
  close_at_return-erased s = ground arith

  after-erased :
      (ran : Ran S) (rest : Session S → List Event) (rest' : Session (Unit {0}) → List Event)
      → ((s : Session S) → rest s ≡ rest' (erase s))
      → ran.0 ++ after rest ran.1 ≡ (erased ran).0 ++ after rest' (erased ran).1
  unfolding after
  after-erased (events, next s) rest rest' h = ap (λ es. events ++ es) (h s)
  after-erased (events, stop s) rest rest' h =
      ap (λ es. events ++ es) (sym (close_at_return-erased s))

  -- The events of a session are those of the session without the state.
  pub run-erased :
      (s : Session S) (turns : List Turn)
      → run deps s turns ≡ run (stateless u deps) (erase s) turns
  unfolding run
  run-erased s [] = sym (close_at_return-erased s)
  run-erased s (broken e ∷ turns) = sym (close_at_return-erased s)
  run-erased s (asks req a ∷ turns) = rw (← step-erased s req a) (
      after-erased (step deps s req a) (λ t. run deps t turns) (λ t. run (stateless u deps) t turns)
        (λ t. run-erased t turns))
