-- ===== src/Sessions/Isolated.antt =====
-- Sessions do not see each other.
use hallmaster_proxy.Base.{
  ℕ, Option, Bool, List, [], ◌∷◌, ◌++◌, ◌==◌, ==_iff, ◌≡◌, refl, sym, ap, ap₂, ◌∙◌, arith, inl, inr,
  Bool-cases, if◌then◌else◌, map, append-nil,
}
use hallmaster_proxy.Text.{Bytes}
use hallmaster_proxy.Http.{Request, Response}
use hallmaster_proxy.Tamper.{Tamperer}
use hallmaster_proxy.Tamper.Logging.{logging}
use hallmaster_proxy.Handlers.Https.Exchange.{settle}
use hallmaster_proxy.Handlers.Https.State.{
  Deps, Session, Event, Turn, broken, asks, Ran, Outcome, next, stop, close_at_return, start,
}
use hallmaster_proxy.Handlers.Https.{step, run, after}
use hallmaster_proxy.Handlers.Https.Erased.{
  Mimics, stateless, erase, erase_outcome, erased, step-erased, close_at_return-erased, run-erased,
}
use hallmaster_proxy.Sessions.{with_close, turn, at, sessions_run, begin}

-- What one connection shows, and what it is asked.
abbrev pub events_of : ℕ → List (ℕ × Event) → List Event
events_of conn [] = []
events_of conn ((other, e) ∷ events) =
    if other == conn then e ∷ events_of conn events else events_of conn events

abbrev pub turns_of : ℕ → List (ℕ × Turn) → List Turn
turns_of conn [] = []
turns_of conn ((other, x) ∷ schedule) =
    if other == conn then x ∷ turns_of conn schedule else turns_of conn schedule

events_of-append :
    (conn : ℕ) (a b : List (ℕ × Event))
    → events_of conn (a ++ b) ≡ events_of conn a ++ events_of conn b
events_of-append conn [] b = refl
events_of-append conn ((other, e) ∷ a) b = ground (arith, events_of-append conn a b)

events_of_own :
    (conn other : ℕ) (events : List Event)
    → events_of conn (map (λ e. (other, e)) events) ≡ (if other == conn then events else [])
events_of_own conn other [] = ground arith
events_of_own conn other (e ∷ events) = ground (arith, events_of_own conn other events)

-- A session by itself.
alone : Deps (Unit {0}) → Outcome (Unit {0}) → List Turn → List Event
alone deps o [] = []
alone deps o (x ∷ turns) = let (t, (events, o')) = turn deps o tt x in events ++ alone deps o' turns

module _ {S : Type 0} (deps : Deps S) (u : Tamperer (Unit {0}))
    (mimics : Mimics deps.tamperer u) where
  with_close-erased : (ran : Ran S) → erased (with_close ran) ≡ with_close (erased ran)
  with_close-erased (events, next s) = refl
  with_close-erased (events, stop s) =
      ap (λ (es : List Event). (events ++ es, stop (erase s)))
        (sym (close_at_return-erased deps u mimics s))

  turn-erased :
      (o : Outcome S) (t : S) (x : Turn)
      → erased (turn deps o t x).1 ≡ (turn (stateless u deps) (erase_outcome o) tt x).1
  unfolding turn
  turn-erased (stop s) t x = refl
  turn-erased (next s) t (broken e) =
      ap (λ (es : List Event). (es, stop (erase s))) (sym (close_at_return-erased deps u mimics s))
  turn-erased (next s) t (asks req a) =
      with_close-erased (step deps (record s { tamper_state = t }) req a)
      ∙ ap with_close (step-erased deps u mimics (record s { tamper_state = t }) req a)

  sessions_run-alone :
      (sessions : ℕ → Outcome S) (t : S) (schedule : List (ℕ × Turn)) (conn : ℕ)
      → events_of conn (sessions_run deps sessions t schedule)
        ≡ alone (stateless u deps) (erase_outcome (sessions conn)) (turns_of conn schedule)
  unfolding sessions_run alone
  sessions_run-alone sessions t [] conn = refl
  sessions_run-alone sessions t ((other, x) ∷ schedule) conn =
      let (t', (events, o)) = turn deps (sessions other) t x in
      let here = turn-erased (sessions other) t x in
      let later = sessions_run-alone (at sessions other o) t' schedule conn in
      events_of-append conn (map (λ e. (other, e)) events)
        (sessions_run deps (at sessions other o) t' schedule)
      ∙ ap₂ (λ (a b : List Event). a ++ b) (events_of_own conn other events) later
      ∙ elim (Bool-cases (other == conn)) [
        | inl same ↦ rw same (
            ap
              (λ (ran : Ran (Unit {0})).
                ran.0 ++ alone (stateless u deps) ran.1 (turns_of conn schedule))
              here
            ∙ ap
                (λ (c : ℕ).
                  alone (stateless u deps) (erase_outcome (sessions c))
                    (x ∷ turns_of conn schedule))
                ((==_iff other conn).0 same))
        | inr differ ↦ rw differ refl
      ]

module _ (deps : Deps (Unit {0})) where
  alone-stop : (s : Session (Unit {0})) (turns : List Turn) → alone deps (stop s) turns ≡ []
  unfolding alone turn
  alone-stop s [] = refl
  alone-stop s (x ∷ turns) = alone-stop s turns

  with_close-alone :
      (ran : Ran (Unit {0})) (turns : List Turn) (rest : Session (Unit {0}) → List Event)
      → ((s : Session (Unit {0})) → alone deps (next s) turns ≡ rest s)
      → (with_close ran).0 ++ alone deps (with_close ran).1 turns ≡ ran.0 ++ after rest ran.1
  unfolding after
  with_close-alone (events, next s) turns rest h = ap (λ (es : List Event). events ++ es) (h s)
  with_close-alone (events, stop s) turns rest h =
      ap (λ (es : List Event). (events ++ close_at_return s) ++ es) (alone-stop s turns)
      ∙ append-nil (events ++ close_at_return s)

  alone-run :
      (s : Session (Unit {0})) (turns : List Turn) (e : Bytes)
      → alone deps (next s) (turns ++ broken e ∷ []) ≡ run deps s turns
  unfolding alone turn run
  alone-run s [] e = append-nil (close_at_return s)
  alone-run s (broken e' ∷ turns) e =
      ap (λ (es : List Event). close_at_return s ++ es) (alone-stop s (turns ++ broken e ∷ []))
      ∙ append-nil (close_at_return s)
  alone-run s (asks req a ∷ turns) e =
      with_close-alone (step deps s req a) (turns ++ broken e ∷ []) (λ s'. run deps s' turns)
        (λ s'. alone-run s' turns e)

-- What the calls of a tamperer settle on does not depend on its state.
pub record IsStateless {S : Type 0} (t : Tamperer S) : Type 0 where
  pub request :
      (req : Request) (s s' : S) → settle (t.request req s).1 ≡ settle (t.request req s').1
  pub response :
      (req : Request) (resp : Response) (d : Option Bytes) (s s' : S)
      → settle (t.response req resp d s).1 ≡ settle (t.response req resp d s').1

-- The tamperer as it answers in one state.
abbrev frozen : {S : Type 0} → Tamperer S → S → Tamperer (Unit {0})
frozen t s = record {
  request = λ req _. (tt, (t.request req s).1);
  response = λ req resp d _. (tt, (t.response req resp d s).1);
  ws_incoming = λ payload _. (tt, (t.ws_incoming payload s).1);
  ws_outgoing = λ payload _. (tt, (t.ws_outgoing payload s).1);
}

frozen-Mimics : {S : Type 0} (t : Tamperer S) (s : S) → IsStateless t → Mimics t (frozen t s)
frozen-Mimics t s h = record {
  request_settles = λ req s'. h.request req s' s;
  response_settles = λ req resp d s'. h.response req resp d s' s;
}

-- The Logging tamperer writes its log and does not read it.
pub logging-IsStateless : (log_bodies : Bool) → IsStateless (logging log_bodies)
unfolding logging
logging-IsStateless log_bodies = record {
  request = λ req s s'. refl;
  response = λ req resp d s s'. refl;
}

-- However the rounds of many sessions interleave from their start on, with a shared tamperer that settles on objects
-- which do not depend on its state (as Logging does), a client whose input comes to its end
-- sees exactly what HttpsHandler shows it when it runs alone.
pub sessions_run-run :
    {S : Type 0} (deps : Deps S) (t : S) (schedule : List (ℕ × Turn)) (conn : ℕ) (turns : List Turn)
    (e : Bytes)
    → IsStateless deps.tamperer
    → turns_of conn schedule ≡ turns ++ broken e ∷ []
    → events_of conn (sessions_run deps (begin t) t schedule) ≡ run deps (start t) turns
sessions_run-run deps t schedule conn turns e is_stateless own =
    let u = frozen deps.tamperer t in
    let mimics = frozen-Mimics deps.tamperer t is_stateless in
    sessions_run-alone deps u mimics (begin t) t schedule conn
    ∙ ap (alone (stateless u deps) (next (start tt))) own
    ∙ alone-run (stateless u deps) (start tt) turns e
    ∙ sym (run-erased deps u mimics (start t) turns)
