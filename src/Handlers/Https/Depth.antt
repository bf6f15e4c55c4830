-- ===== src/Handlers/Https/Depth.antt =====
-- Nested CONNECTs: how many TLS layers a client session can open.
use hallmaster_proxy.Base.{ℕ, ◌+◌, ◌≤◌, List, [], ◌∷◌, ◌++◌, Option, none, some, ◌≡◌, arith}
use hallmaster_proxy.Http.{Request}
use hallmaster_proxy.Handlers.Https.State.{
  Deps, Session, Event, Answers, Turn, broken, asks, Ran, Outcome, session_of, next, stop,
  established, drop_upstream, close_at_return,
}
use hallmaster_proxy.Handlers.Https.Exchange.{exchange}
use hallmaster_proxy.Handlers.Https.{
  step, run, after, connect, serve_request, leave_other_host, with_upstream, proceed,
  max_connect_depth,
}

-- The handshakes that follow a nested CONNECT.
abbrev pub handshakes : List Event → ℕ
handshakes [] = 0
handshakes (established layer host ∷ events) = handshakes events + 1
handshakes (_ ∷ events) = handshakes events

handshakes-append : (a b : List Event) → handshakes (a ++ b) ≡ handshakes a + handshakes b
handshakes-append [] b = omega arith
handshakes-append (established layer host ∷ a) b = omega (arith, handshakes-append a b)
handshakes-append (_ ∷ a) b = handshakes-append a b

module _ {S : Type 0} where
  abbrev Quiet : Session S → Ran S → Type 0
  Quiet s ran = (handshakes ran.0 ≡ 0) × ((session_of ran.1).connect_depth ≡ s.connect_depth)

  -- A session that goes on has counted its handshakes.
  abbrev Counts : ℕ → ℕ → Outcome S → Type 0
  Counts k n (next s) = s.connect_depth ≡ n + k
  Counts k n (stop s) = Unit

  proceed-Quiet :
      (deps : Deps S) (s : Session S) (req : Request) (a : Answers) (conn : ℕ)
      → Quiet s (proceed deps s req a conn)
  unfolding proceed exchange
  proceed-Quiet deps s req a conn = ground arith

  with_upstream-Quiet :
      (deps : Deps S) (s : Session S) (req : Request) (a : Answers) (o : Option ℕ)
      → Quiet s (with_upstream deps s req a o)
  unfolding with_upstream proceed exchange
  with_upstream-Quiet deps s req a (some conn) = proceed-Quiet deps s req a conn
  with_upstream-Quiet deps s req a none = ground arith

  serve_request-Quiet :
      (deps : Deps S) (s : Session S) (req : Request) (a : Answers)
      → Quiet s (serve_request deps s req a)
  unfolding serve_request
  serve_request-Quiet deps s req a =
      let (left, events) = leave_other_host s req.host in
      ground (arith, with_upstream-Quiet deps left req a left.server)

  connect-handshakes :
      (s : Session S) (req : Request) (a : Answers)
      → s.connect_depth ≤ max_connect_depth
      → (handshakes (connect s req a).0 + s.connect_depth ≤ max_connect_depth)
        × Counts s.connect_depth (handshakes (connect s req a).0) (connect s req a).1
  unfolding connect drop_upstream
  connect-handshakes s req a h = ground arith

  step-handshakes :
      (deps : Deps S) (s : Session S) (req : Request) (a : Answers)
      → s.connect_depth ≤ max_connect_depth
      → (handshakes (step deps s req a).0 + s.connect_depth ≤ max_connect_depth)
        × Counts s.connect_depth (handshakes (step deps s req a).0) (step deps s req a).1
  unfolding step
  step-handshakes deps s req a h =
      ground (arith, connect-handshakes s req a h, serve_request-Quiet deps s req a)

  close_at_return-handshakes : (s : Session S) → handshakes (close_at_return s) ≡ 0
  unfolding close_at_return
  close_at_return-handshakes s = ground arith

  after-handshakes :
      (k : ℕ) (ran : Ran S) (rest : Session S → List Event)
      → (handshakes ran.0 + k ≤ max_connect_depth) × Counts k (handshakes ran.0) ran.1
      → ((s : Session S)
          → s.connect_depth ≤ max_connect_depth
          → handshakes (rest s) + s.connect_depth ≤ max_connect_depth)
      → handshakes (ran.0 ++ after rest ran.1) + k ≤ max_connect_depth
  unfolding after
  after-handshakes k (events, next s) rest h ih =
      omega (arith, handshakes-append events (rest s), ih s (omega arith))
  after-handshakes k (events, stop s) rest h ih =
      omega (arith, handshakes-append events (close_at_return s), close_at_return-handshakes s)

  -- A client session opens at most four nested TLS layers, counting those that it has at the start,
  -- whatever the client asks and the environment answers.
  pub run-handshakes :
      (deps : Deps S) (s : Session S) (turns : List Turn)
      → s.connect_depth ≤ max_connect_depth
      → handshakes (run deps s turns) + s.connect_depth ≤ max_connect_depth
  unfolding run
  run-handshakes deps s [] h = omega (arith, close_at_return-handshakes s)
  run-handshakes deps s (broken e ∷ turns) h = omega (arith, close_at_return-handshakes s)
  run-handshakes deps s (asks req a ∷ turns) h =
      after-handshakes s.connect_depth (step deps s req a) (λ t. run deps t turns)
        (step-handshakes deps s req a h) (λ t. run-handshakes deps t turns)
