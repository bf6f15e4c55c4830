-- ===== src/Main/Lifecycle.antt =====
-- The process that main leaves running: Listen and Serve of mitm.go on the main goroutine, and the
-- server of healthz/healthz.go on another, whose steps interleave in any order.
pub mod Probes
use hallmaster_proxy.Base.{ℕ, Bool, true, false, List, [], ◌∷◌, Option, none, some, ◌≡◌}
use hallmaster_proxy.Mitm.{Listener, connection, failed, accept_round}
use hallmaster_proxy.Config.{health}

-- Where the main goroutine stands: before net.Listen has returned, before Serve, or in Serve.
pub data Phase : Type 0 where
  starting : Phase
  listening : Phase
  in_serve : Listener → Phase

-- Ready
abbrev pub ready_in : Phase → Bool
ready_in starting = false
ready_in listening = false
ready_in (in_serve l) = l.ready

-- `health_up` says whether the health server has its port; `answered` has the status of each answer
-- to /healthz with the phase at that moment, the last first.
pub record Process : Type 0 where
  pub phase : Phase
  pub health_up : Bool
  pub exited : Option ℕ
  pub answered : List (Phase × ℕ)

abbrev pub started : Process
started = record { phase = starting; health_up = false; exited = none; answered = [] }

abbrev pub serve_started : Listener
serve_started = record { ready = true; served = []; returned = false }

-- What can happen in a process that has not exited. Listen gives Serve a context that is never
-- cancelled.
pub data Happens (s u : Process) : Type 0 where
  health_bound : u ≡ record s { health_up = true } → Happens s u
  health_failed : u ≡ record s { exited = some 1 } → Happens s u
  port_refused : s.phase ≡ starting → u ≡ record s { exited = some 1 } → Happens s u
  port_bound : s.phase ≡ starting → u ≡ record s { phase = listening } → Happens s u
  serve_begins : s.phase ≡ listening → u ≡ record s { phase = in_serve serve_started } → Happens s u
  accepted :
      (l : Listener) (conn : ℕ)
      → s.phase ≡ in_serve l
      → u ≡ record s { phase = in_serve (accept_round l (connection conn)) }
      → Happens s u
  accept_failed :
      (l : Listener)
      → s.phase ≡ in_serve l
      → u ≡ record s { phase = in_serve (accept_round l (failed false)) }
      → Happens s u
  probed :
      s.health_up ≡ true
      → u ≡ record s { answered = (s.phase, (health (ready_in s.phase)).0) ∷ s.answered }
      → Happens s u

pub data Lives : Process → Type 0 where
  launched : Lives started
  goes_on : {s u : Process} → Lives s → s.exited ≡ none → Happens s u → Lives u
