-- ===== src/Main/Lifecycle/Probes.antt =====
-- What the answers to the probes of a container tell.
use hallmaster_proxy.Base.{
  ℕ, Bool, true, false, not, some, All, ◌≡◌, refl, sym, arith, subst, if◌then◌else◌,
}
use hallmaster_proxy.Mitm.{Listener, connection, failed, accept_round}
use hallmaster_proxy.Config.{health}
use hallmaster_proxy.Main.Lifecycle.{
  Phase, starting, listening, in_serve, ready_in, Process, serve_started, Happens, health_bound,
  health_failed, port_refused, port_bound, serve_begins, accepted, accept_failed, probed, Lives,
  launched, goes_on,
}

-- The accept loop runs.
abbrev pub accepts : Phase → Bool
accepts starting = false
accepts listening = false
accepts (in_serve l) = not l.returned

abbrev pub IsAccurate : Phase × ℕ → Type 0
IsAccurate (phase, status) = status ≡ (if accepts phase then 200 else 503)

-- Serve has not returned, and is ready.
abbrev pub IsServing : Phase → Type 0
IsServing starting = Unit
IsServing listening = Unit
IsServing (in_serve l) = (l.ready ≡ true) × (l.returned ≡ false)

pub record IsHealthy (s : Process) : Type 0 where
  pub serving : IsServing s.phase
  pub accurate : All IsAccurate s.answered
  pub status : (n : ℕ) → s.exited ≡ some n → n ≡ 1

answer-IsAccurate :
    (phase : Phase) → IsServing phase → IsAccurate (phase, (health (ready_in phase)).0)
unfolding health
answer-IsAccurate starting h = refl
answer-IsAccurate listening h = refl
answer-IsAccurate (in_serve l) h = rw (h.0, h.1) refl

accepted-IsServing :
    (l : Listener) (conn : ℕ)
    → IsServing (in_serve l)
    → IsServing (in_serve (accept_round l (connection conn)))
unfolding accept_round
accepted-IsServing l conn h = ground arith

failed-IsServing :
    (l : Listener) → IsServing (in_serve l) → IsServing (in_serve (accept_round l (failed false)))
unfolding accept_round
failed-IsServing l h = ground arith

in_phase :
    (s : Process) (phase : Phase)
    → IsHealthy s
    → IsServing phase
    → IsHealthy (record s { phase = phase })
in_phase s phase h serving = record { serving = serving; accurate = h.accurate; status = h.status }

exit_1 : (s : Process) → IsHealthy s → IsHealthy (record s { exited = some 1 })
exit_1 s h = record { serving = h.serving; accurate = h.accurate; status = λ n e. ground arith }

Happens-IsHealthy : (s u : Process) → IsHealthy s → Happens s u → IsHealthy u
Happens-IsHealthy s u h (health_bound e) =
    subst IsHealthy (sym e)
      (record { serving = h.serving; accurate = h.accurate; status = h.status })
Happens-IsHealthy s u h (health_failed e) = subst IsHealthy (sym e) (exit_1 s h)
Happens-IsHealthy s u h (port_refused p e) = subst IsHealthy (sym e) (exit_1 s h)
Happens-IsHealthy s u h (port_bound p e) = subst IsHealthy (sym e) (in_phase s listening h tt)
Happens-IsHealthy s u h (serve_begins p e) =
    subst IsHealthy (sym e) (in_phase s (in_serve serve_started) h (refl, refl))
Happens-IsHealthy s u h (accepted l conn p e) = subst IsHealthy (sym e) (
    in_phase s (in_serve (accept_round l (connection conn))) h
      (accepted-IsServing l conn (subst IsServing p h.serving)))
Happens-IsHealthy s u h (accept_failed l p e) = subst IsHealthy (sym e) (
    in_phase s (in_serve (accept_round l (failed false))) h
      (failed-IsServing l (subst IsServing p h.serving)))
Happens-IsHealthy s u h (probed up e) = subst IsHealthy (sym e) (record {
  serving = h.serving;
  accurate = (answer-IsAccurate s.phase h.serving, h.accurate);
  status = h.status;
})

-- However the two goroutines interleave, every answer to /healthz is 200 if Serve's accept loop runs
-- at that moment and 503 if it does not; Serve that has begun never returns; and if the process has
-- exited, its status is 1.
pub Lives-IsHealthy : (s : Process) → Lives s → IsHealthy s
Lives-IsHealthy _ launched = record { serving = tt; accurate = tt; status = λ n e. cc }
Lives-IsHealthy u (goes_on {s} lives running step) =
    Happens-IsHealthy s u (Lives-IsHealthy s lives) step
