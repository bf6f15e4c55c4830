-- ===== src/Handlers/Https/Upstream.antt =====
-- The upstream connection over a whole client session: dialled for the host that is asked for, one
-- at a time, and closed at the end.
use hallmaster_proxy.Base.{
  ℕ, true, ◌&&◌, List, [], ◌∷◌, ◌++◌, Option, none, some, ◌≡◌, refl, arith, ◌∙◌, sym, subst, ◌==◌,
  leb, ==_refl, if◌then◌else◌, Bool-cases, inl, inr, ◌⊎◌, follows, follows-append,
}
use hallmaster_proxy.Text.{Bytes, codes, equal}
use hallmaster_proxy.Text.Affix.{equal_refl, equal_iff}
use hallmaster_proxy.Http.{Request}
use hallmaster_proxy.Handlers.Https.State.{
  Deps, Session, Event, Answers, Turn, broken, asks, Dial, Ran, session_of, next, stop, emit,
  established, close_upstream, dial, forward, respond, close_body, pump, inspect, closed,
  drop_upstream, close_at_return,
}
use hallmaster_proxy.Handlers.Https.Exchange.{exchange}
use hallmaster_proxy.Handlers.Https.{
  step, run, after, connect, upgrade, serve_request, leave_other_host, with_upstream, upstream_dial,
  max_connect_depth, dialled, proceed,
}

-- The upstream as the events leave it: none, or a connection and the name that it was dialled for.
pub data Upstream : Type 0 where
  idle : Upstream
  connected : ℕ → Bytes → Upstream

-- What an event does to the upstream; `none` if it may not happen then.
abbrev pub follow : Upstream → Event → Option Upstream
follow idle (dial d conn) = some (connected conn d.config.server_name)
follow idle (close_upstream conn) = none
follow idle (forward conn host req) = none
follow idle (pump conn layer) = none
follow idle (inspect conn layer compressed) = none
follow (connected c name) (dial d conn) = none
follow (connected c name) (close_upstream conn) = if c == conn then some idle else none
follow (connected c name) (forward conn host req) =
    if c == conn && equal name host then some (connected c name) else none
follow (connected c name) (pump conn layer) = if c == conn then some (connected c name) else none
follow (connected c name) (inspect conn layer compressed) =
    if c == conn then some (connected c name) else none
follow u (established layer host) = some u
follow u (respond layer resp) = some u
follow u close_body = some u

abbrev pub follow_all : Upstream → List Event → Option Upstream
follow_all = follows follow

abbrev view_of : Option ℕ → Bytes → Upstream
view_of none host = idle
view_of (some conn) host = connected conn host

module _ {S : Type 0} where
  abbrev view : Session S → Upstream
  view s = view_of s.server s.dialled_host

  -- The events are allowed from the state before, and lead to the state after.
  abbrev Follows : Upstream → Ran S → Type 0
  Follows u ran = follow_all u ran.0 ≡ some (view (session_of ran.1))

  Follows-emit :
      (u v : Upstream) (events : List Event) (ran : Ran S)
      → follow_all u events ≡ some v
      → Follows v ran
      → Follows u (emit events ran)
  Follows-emit u v events ran h k = follows-append follow events ran.0 u v h ∙ k

  proceed-Follows :
      (deps : Deps S) (s : Session S) (req : Request) (a : Answers) (conn : ℕ)
      → s.server ≡ some conn
      → s.dialled_host ≡ req.host
      → Follows (connected conn req.host) (proceed deps s req a conn)
  unfolding proceed exchange
  proceed-Follows deps s req a conn h n = ground (arith, equal_refl req.host)

  dialled-Follows :
      (deps : Deps S) (s : Session S) (req : Request) (a : Answers) (d : Dial) (o : Option Bytes)
      → s.server ≡ none
      → d.config.server_name ≡ req.host
      → Follows idle (dialled deps s req a d o)
  unfolding dialled
  dialled-Follows deps s req a d (some e) h n = rw h refl
  dialled-Follows deps s req a d none h n = rw n (proceed-Follows deps _ req a s.dials refl refl)

  with_upstream-Follows :
      (deps : Deps S) (s : Session S) (req : Request) (a : Answers) (o : Option ℕ)
      → s.server ≡ o
      → (equal req.host s.dialled_host ≡ true) ⊎ (s.server ≡ none)
      → Follows (view_of o s.dialled_host) (with_upstream deps s req a o)
  unfolding with_upstream
  with_upstream-Follows deps s req a none h k =
      let d = upstream_dial deps req a in dialled-Follows deps s req a d (a.dial d) h refl
  with_upstream-Follows deps s req a (some conn) h (inr n) = absurd (cc (sym h ∙ n))
  with_upstream-Follows deps s req a (some conn) h (inl same) =
      let e = (equal_iff req.host s.dialled_host).0 same in
      subst (λ name. Follows (connected conn name) (proceed deps s req a conn)) e
        (proceed-Follows deps s req a conn h (sym e))

  drop_upstream-Follows :
      (s : Session S)
      → (follow_all (view s) (drop_upstream s).1 ≡ some idle) × ((drop_upstream s).0.server ≡ none)
  unfolding drop_upstream
  drop_upstream-Follows s = closed_lem s.server refl
    where
      closed_lem :
          (o : Option ℕ)
          → s.server ≡ o
          → (follow_all (view_of o s.dialled_host) (closed s o).1 ≡ some idle)
            × ((closed s o).0.server ≡ none)
      closed_lem none h = (refl, h)
      closed_lem (some conn) h = (rw (==_refl conn), refl)

  leave_other_host-Follows :
      (s : Session S) (host : Bytes)
      → (follow_all (view s) (leave_other_host s host).1 ≡ some (view (leave_other_host s host).0))
        × ((equal host (leave_other_host s host).0.dialled_host ≡ true)
            ⊎ ((leave_other_host s host).0.server ≡ none))
  unfolding leave_other_host
  leave_other_host-Follows s host = elim (Bool-cases (equal host s.dialled_host)) [
    | inl same ↦ rw same (refl, inl same)
    | inr other ↦
        let (allowed, none_left) = drop_upstream-Follows s in
        rw other (rw none_left allowed, inr none_left)
  ]

  serve_request-Follows :
      (deps : Deps S) (s : Session S) (req : Request) (a : Answers)
      → Follows (view s) (serve_request deps s req a)
  unfolding serve_request
  serve_request-Follows deps s req a =
      let (left, events) = leave_other_host s req.host in
      let (allowed, fits) = leave_other_host-Follows s req.host in
      Follows-emit (view s) (view left) events (with_upstream deps left req a left.server) allowed
        (with_upstream-Follows deps left req a left.server refl fits)

  upgrade-Follows : (s : Session S) (o : Option Bytes) → Follows (view s) (upgrade s o)
  unfolding upgrade
  upgrade-Follows s (some e) = refl
  upgrade-Follows s none =
      let (allowed, none_left) = drop_upstream-Follows s in rw none_left allowed

  connect-Follows :
      (s : Session S) (req : Request) (a : Answers) → Follows (view s) (connect s req a)
  unfolding connect
  connect-Follows s req a = elim (Bool-cases (leb max_connect_depth s.connect_depth)) [
    | inl deep ↦ rw deep refl
    | inr shallow ↦ rw shallow (
        Follows-emit (view s) (view s) (established s.layer req.host ∷ [])
          (upgrade s (a.handshake req.host)) refl (upgrade-Follows s (a.handshake req.host)))
  ]

  step-Follows :
      (deps : Deps S) (s : Session S) (req : Request) (a : Answers)
      → Follows (view s) (step deps s req a)
  unfolding step
  step-Follows deps s req a = elim (Bool-cases (equal req.method (codes "CONNECT"))) [
    | inl nested ↦ rw nested (connect-Follows s req a)
    | inr other ↦ rw other (serve_request-Follows deps s req a)
  ]

  close_at_return-Follows : (s : Session S) → follow_all (view s) (close_at_return s) ≡ some idle
  unfolding close_at_return
  close_at_return-Follows s = (drop_upstream-Follows s).0

  after-Follows :
      (u : Upstream) (ran : Ran S) (rest : Session S → List Event)
      → Follows u ran
      → ((s : Session S) → follow_all (view s) (rest s) ≡ some idle)
      → follow_all u (ran.0 ++ after rest ran.1) ≡ some idle
  unfolding after
  after-Follows u (events, next s) rest h k =
      follows-append follow events (rest s) u (view s) h ∙ k s
  after-Follows u (events, stop s) rest h k =
      follows-append follow events (close_at_return s) u (view s) h ∙ close_at_return-Follows s

  -- Whatever the client asks and the environment answers, from any state of a session: every
  -- request goes out on the open connection, which was dialled with the Host that the request
  -- named as its TLS server name; no connection is dialled while another is open; and none is open
  -- when the handler has returned.
  pub run-Follows :
      (deps : Deps S) (s : Session S) (turns : List Turn)
      → follow_all (view s) (run deps s turns) ≡ some idle
  unfolding run
  run-Follows deps s [] = close_at_return-Follows s
  run-Follows deps s (broken e ∷ turns) = close_at_return-Follows s
  run-Follows deps s (asks req a ∷ turns) =
      after-Follows (view s) (step deps s req a) (λ t. run deps t turns) (step-Follows deps s req a)
        (λ t. run-Follows deps t turns)
