-- ===== src/Visit/Place.antt =====
-- How far a client connection has come, and what may happen next on it.
use hallmaster_proxy.Base.{
  follows, follows-append, ℕ, Bool, true, false, ◌&&◌, ◌++◌, if◌then◌else◌, List, [], ◌∷◌, Option,
  none, some, ◌≡◌, refl, ◌∙◌, ◌⊎◌, inl, inr, map,
}
use hallmaster_proxy.Text.{Bytes}
use hallmaster_proxy.Handlers.Https.State
use hallmaster_proxy.Handlers.Https.Upstream.{Upstream, idle, connected}
use hallmaster_proxy.Handlers.Https.Upstream
use hallmaster_proxy.Handlers.Https.Pump
use hallmaster_proxy.Handlers.Ws
use hallmaster_proxy.Mitm
use hallmaster_proxy.Mitm.Connection.{Stage, handled}
use hallmaster_proxy.Mitm.Connection
use hallmaster_proxy.Visit.{Event, outer, session, framed, copied}

-- How far the connection has come, and its upstream.
abbrev pub Place : Type 0
Place = Stage × Upstream

abbrev pub staged : Option Stage → Option Place
staged none = none
staged (some stage) = some (stage, idle)

abbrev pub upstreamed : Option Upstream → Option Place
upstreamed none = none
upstreamed (some u) = some (handled, u)

abbrev on_outer : Stage → Upstream → Mitm.Event → Option Place
on_outer stage idle e = staged (Connection.follow stage e)
on_outer stage (connected conn name) e = none

abbrev on_session : Stage → Upstream → State.Event → Option Place
on_session handled u e = upstreamed (Upstream.follow u e)
on_session _ u e = none

abbrev on_traffic : Stage → Upstream → Option Place
on_traffic handled (connected conn name) = some (handled, connected conn name)
on_traffic _ _ = none

-- What may happen, and where it leads. The connection's own steps are taken with no upstream open;
-- the handler's come behind `handle`; frames and copies have an upstream to go to.
abbrev pub follow : Place → Event → Option Place
follow (stage, u) (outer e) = on_outer stage u e
follow (stage, u) (session e) = on_session stage u e
follow (stage, u) (framed e) = on_traffic stage u
follow (stage, u) (copied e) = on_traffic stage u

abbrev pub follow_all : Place → List Event → Option Place
follow_all = follows follow

pub framed-Follows :
    (conn : ℕ) (name : Bytes) (events : List Ws.Event)
    → follow_all (handled, connected conn name) (map framed events)
      ≡ some (handled, connected conn name)
framed-Follows conn name [] = refl
framed-Follows conn name (e ∷ events) = framed-Follows conn name events

pub copied-Follows :
    (conn : ℕ) (name : Bytes) (events : List Pump.Event)
    → follow_all (handled, connected conn name) (map copied events)
      ≡ some (handled, connected conn name)
copied-Follows conn name [] = refl
copied-Follows conn name (e ∷ events) = copied-Follows conn name events

-- The events lead to `q` if all that is waited for returns, and are in order in any case.
abbrev pub Ends : Bool → Place → List Event → Place → Type 0
Ends back p events q =
    ((back ≡ true) × (follow_all p events ≡ some q))
    ⊎ ((back ≡ false) × ((r : Place) × (follow_all p events ≡ some r)))

pub ends :
    (back : Bool) (p q : Place) (events : List Event)
    → follow_all p events ≡ some q
    → Ends back p events q
ends true p q events h = inl (refl, h)
ends false p q events h = inr (refl, (q, h))

pub ends-append :
    (b back : Bool) (p p' q : Place) (events rest : List Event)
    → Ends b p events p'
    → Ends back p' rest q
    → Ends (b && back) p (events ++ (if b then rest else [])) q
ends-append true back p p' q events rest (inl (e, f)) (inl (e', f')) =
    inl (e', follows-append follow events rest p p' f ∙ f')
ends-append true back p p' q events rest (inl (e, f)) (inr (e', (r, f'))) =
    inr (e', (r, follows-append follow events rest p p' f ∙ f'))
ends-append true back p p' q events rest (inr (e, (r, f))) later = absurd (cc e)
ends-append false back p p' q events rest (inl (e, f)) later = absurd (cc e)
ends-append false back p p' q events rest (inr (e, (r, f))) later =
    inr (refl, (r, follows-append follow events [] p r f))
