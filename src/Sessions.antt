-- ===== src/Sessions.antt =====
-- The goroutines that Serve of proxy/internals/mitm.go starts, one client session of HttpsHandler
-- each. They share the tamperer of HandlerDeps, and whose loop makes its next round is up to the
-- scheduler; a round is one step.
pub mod Isolated
pub mod Served
use hallmaster_proxy.Base.{ℕ, Bool, List, [], ◌∷◌, ◌++◌, ◌==◌, if◌then◌else◌, map}
use hallmaster_proxy.Handlers.Https.State.{
  Deps, Session, Event, Turn, broken, asks, Ran, Outcome, next, stop, session_of, close_at_return,
  start,
}
use hallmaster_proxy.Handlers.Https.{step}

-- A handler that returns closes its upstream.
abbrev pub with_close : {S : Type 0} → Ran S → Ran S
with_close (events, next s) = (events, next s)
with_close (events, stop s) = (events ++ close_at_return s, stop s)

module _ {S : Type 0} where
  -- One round of a session, from the shared state `t`; a goroutine that has returned makes none.
  unfoldable pub turn : Deps S → Outcome S → S → Turn → S × Ran S
  unfolding step close_at_return
  turn deps (stop s) t x = (t, ([], stop s))
  turn deps (next s) t (broken e) = (t, (close_at_return s, stop s))
  turn deps (next s) t (asks req a) =
      let ran = with_close (step deps (record s { tamper_state = t }) req a) in
      ((session_of ran.1).tamper_state, ran)

abbrev pub at : {S : Type 0} → (ℕ → Outcome S) → ℕ → Outcome S → ℕ → Outcome S
at sessions conn outcome other = if conn == other then outcome else sessions other

-- The events of all sessions, each with its connection, under a schedule.
unfoldable pub sessions_run :
    {S : Type 0} → Deps S → (ℕ → Outcome S) → S → List (ℕ × Turn) → List (ℕ × Event)
unfolding turn
sessions_run deps sessions t [] = []
sessions_run deps sessions t ((conn, x) ∷ schedule) =
    let (t', (events, outcome)) = turn deps (sessions conn) t x in
    map (λ e. (conn, e)) events ++ sessions_run deps (at sessions conn outcome) t' schedule

-- Every connection begins as a session of its own.
abbrev pub begin : {S : Type 0} → S → ℕ → Outcome S
begin t conn = next (start t)
