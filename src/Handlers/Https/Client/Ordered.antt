-- ===== src/Handlers/Https/Client/Ordered.antt =====
-- What a client can rely on over a whole session.
use hallmaster_proxy.Base.{
  ℕ, ◌+◌, Bool, false, List, [], ◌∷◌, ◌++◌, Option, none, some, ◌≡◌, refl, arith, ◌∙◌, sym, subst,
  ==_refl, leb, Bool-cases, inl, inr, follows-append,
}
use hallmaster_proxy.Text.{Bytes, codes, equal}
use hallmaster_proxy.Http.{Request}
use hallmaster_proxy.Handlers.Https.State.{
  Deps, Session, Event, Answers, Turn, broken, asks, Dial, Ran, Outcome, next, stop, emit,
  established, closed, drop_upstream, close_at_return, start,
}
use hallmaster_proxy.Handlers.Https.Exchange.{exchange}
use hallmaster_proxy.Handlers.Https.{
  step, run, after, connect, upgrade, serve_request, leave_other_host, with_upstream, upstream_dial,
  max_connect_depth, dialled, proceed,
}
use hallmaster_proxy.Handlers.Https.Client.{
  waiting, asked, answered, finished, Place, follow, follow_all, IsShut, IsReady, IsReady-some,
}

module _ {S : Type 0} where
  -- A session that goes on waits for the next request on its innermost layer.
  abbrev EndsIn : Option Place → Outcome S → Type 0
  EndsIn o (next s) = IsReady s.layer o
  EndsIn o (stop s) = IsShut o

  abbrev Follows : ℕ → Bool → Ran S → Type 0
  Follows n b ran = EndsIn (follow_all (n, waiting b) ran.0) ran.1

  Follows-emit :
      (n m : ℕ) (b c : Bool) (events : List Event) (ran : Ran S)
      → follow_all (n, waiting b) events ≡ some (m, waiting c)
      → Follows m c ran
      → Follows n b (emit events ran)
  Follows-emit n m b c events ran h k =
      subst (λ o. EndsIn o ran.1)
        (sym (follows-append follow events ran.0 (n, waiting b) (m, waiting c) h)) k

  proceed-Follows :
      (deps : Deps S) (s : Session S) (req : Request) (a : Answers) (conn : ℕ) (b : Bool)
      → Follows s.layer b (proceed deps s req a conn)
  unfolding proceed exchange
  proceed-Follows deps s req a conn b = ground (arith, ==_refl s.layer)

  dialled-Follows :
      (deps : Deps S) (s : Session S) (req : Request) (a : Answers) (d : Dial) (o : Option Bytes)
      (b : Bool)
      → Follows s.layer b (dialled deps s req a d o)
  unfolding dialled
  dialled-Follows deps s req a d (some e) b = tt
  dialled-Follows deps s req a d none b = proceed-Follows deps _ req a s.dials false

  with_upstream-Follows :
      (deps : Deps S) (s : Session S) (req : Request) (a : Answers) (o : Option ℕ) (b : Bool)
      → Follows s.layer b (with_upstream deps s req a o)
  unfolding with_upstream
  with_upstream-Follows deps s req a none b =
      let d = upstream_dial deps req a in dialled-Follows deps s req a d (a.dial d) b
  with_upstream-Follows deps s req a (some conn) b = proceed-Follows deps s req a conn b

  -- The closes of an upstream, which change nothing for the client.
  drop_upstream-Follows :
      (s : Session S) (p : Place)
      → (follow_all p (drop_upstream s).1 ≡ some p) × ((drop_upstream s).0.layer ≡ s.layer)
  unfolding drop_upstream closed
  drop_upstream-Follows s (n, waiting b) = ground arith
  drop_upstream-Follows s (n, asked) = ground arith
  drop_upstream-Follows s (n, answered) = ground arith
  drop_upstream-Follows s (n, finished) = ground arith

  leave_other_host-Follows :
      (s : Session S) (host : Bytes) (b : Bool)
      → (follow_all (s.layer, waiting b) (leave_other_host s host).1 ≡ some (s.layer, waiting b))
        × ((leave_other_host s host).0.layer ≡ s.layer)
  unfolding leave_other_host
  leave_other_host-Follows s host b = ground (arith, drop_upstream-Follows s (s.layer, waiting b))

  serve_request-Follows :
      (deps : Deps S) (s : Session S) (req : Request) (a : Answers) (b : Bool)
      → Follows s.layer b (serve_request deps s req a)
  unfolding serve_request
  serve_request-Follows deps s req a b =
      let (left, events) = leave_other_host s req.host in
      let (allowed, same) = leave_other_host-Follows s req.host b in
      Follows-emit s.layer s.layer b b events (with_upstream deps left req a left.server) allowed (
        subst (λ n. Follows n b (with_upstream deps left req a left.server)) same
          (with_upstream-Follows deps left req a left.server b))

  upgrade-Follows : (s : Session S) (o : Option Bytes) → Follows (s.layer + 1) false (upgrade s o)
  unfolding upgrade
  upgrade-Follows s (some e) = tt
  upgrade-Follows s none = ground (arith, drop_upstream-Follows s (s.layer + 1, waiting false))

  connect-Follows :
      (s : Session S) (req : Request) (a : Answers) (b : Bool) → Follows s.layer b (connect s req a)
  unfolding connect
  connect-Follows s req a b = elim (Bool-cases (leb max_connect_depth s.connect_depth)) [
    | inl deep ↦ rw deep tt
    | inr shallow ↦ rw shallow (
        Follows-emit s.layer (s.layer + 1) b false (established s.layer req.host ∷ [])
          (upgrade s (a.handshake req.host)) (rw (==_refl s.layer) refl)
          (upgrade-Follows s (a.handshake req.host)))
  ]

  step-Follows :
      (deps : Deps S) (s : Session S) (req : Request) (a : Answers) (b : Bool)
      → Follows s.layer b (step deps s req a)
  unfolding step
  step-Follows deps s req a b = elim (Bool-cases (equal req.method (codes "CONNECT"))) [
    | inl nested ↦ rw nested (connect-Follows s req a b)
    | inr other ↦ rw other (serve_request-Follows deps s req a b)
  ]

  close_at_return-Follows :
      (s : Session S) (events : List Event) (p : Place) (o : Option Place)
      → follow_all p events ≡ o
      → IsShut o
      → IsShut (follow_all p (events ++ close_at_return s))
  unfolding close_at_return
  close_at_return-Follows s events p none h k = absurd k
  close_at_return-Follows s events p (some q) h k =
      subst IsShut
        (sym
          (follows-append follow events (drop_upstream s).1 p q h ∙ (drop_upstream-Follows s q).0))
        k

  after-Follows :
      (n : ℕ) (b : Bool) (ran : Ran S) (rest : Session S → List Event)
      → Follows n b ran
      → ((s : Session S) (c : Bool) → IsShut (follow_all (s.layer, waiting c) (rest s)))
      → IsShut (follow_all (n, waiting b) (ran.0 ++ after rest ran.1))
  unfolding after
  after-Follows n b (events, next s) rest h k =
      let (c, e) = IsReady-some s.layer (follow_all (n, waiting b) events) h in
      subst IsShut
        (sym (follows-append follow events (rest s) (n, waiting b) (s.layer, waiting c) e)) (k s c)
  after-Follows n b (events, stop s) rest h k =
      close_at_return-Follows s events (n, waiting b) (follow_all (n, waiting b) events) refl h

  run-IsShut :
      (deps : Deps S) (s : Session S) (turns : List Turn) (b : Bool)
      → IsShut (follow_all (s.layer, waiting b) (run deps s turns))
  unfolding run
  run-IsShut deps s [] b = close_at_return-Follows s [] (s.layer, waiting b) _ refl tt
  run-IsShut deps s (broken e ∷ turns) b =
      close_at_return-Follows s [] (s.layer, waiting b) _ refl tt
  run-IsShut deps s (asks req a ∷ turns) b =
      after-Follows s.layer b (step deps s req a) (λ t. run deps t turns)
        (step-Follows deps s req a b) (λ t c. run-IsShut deps t turns c)

-- Whatever the client asks, the environment answers and the tamperer does, a session from its start
-- to the handler's return keeps this order. A request that went out gets one response at most,
-- written on the innermost TLS layer, and the response's body is closed right behind it; until then
-- no other request goes out, no upstream is dialled and no nested CONNECT is acknowledged. InspectWS
-- takes over only directly behind a response, and a blind pump only in the place of one. Behind
-- either, and behind a request that gets no response, nothing comes but the close of a body and of
-- the upstream.
pub run-answers :
    {S : Type 0} (deps : Deps S) (t : S) (turns : List Turn)
    → IsShut (follow_all (0, waiting false) (run deps (start t) turns))
run-answers deps t turns = run-IsShut deps (start t) turns false
