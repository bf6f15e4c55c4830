-- ===== src/Base/Machine.antt =====
-- A machine that follows events and may refuse one.
use mathlib.Core.Path.{◌≡◌, ap}
use mathlib.Core.Logic.{inl, inr}
use mathlib.Core.Option.{Option, none, some}
use mathlib.Core.List.{List, [], ◌∷◌, ◌++◌}
use native.Mathlib.Omega.{arith}
use hallmaster_proxy.Base.Tests.{Option-cases}

abbrev pub bind_all : {P : Type 0} → Option P → (P → Option P) → Option P
bind_all none f = none
bind_all (some p) f = f p

module _ {P E : Type 0} where
  -- Where the events lead, or `none` if one is refused.
  abbrev pub follows : (P → E → Option P) → P → List E → Option P
  follows follow p [] = some p
  follows follow p (e ∷ events) = bind_all (follow p e) (λ q. follows follow q events)

  pub follows-append :
      (follow : P → E → Option P) (a b : List E) (p q : P)
      → follows follow p a ≡ some q
      → follows follow p (a ++ b) ≡ follows follow q b
  follows-append follow [] b p q h = ground arith
  follows-append follow (e ∷ a) b p q h = elim (Option-cases (follow p e)) [
    | inl refused ↦ cc (rw refused at h)
    | inr (w, s) ↦ rw s (follows-append follow a b w q (rw s at h))
  ]

  -- The first event, and then the others.
  pub follows-cons :
      (follow : P → E → Option P) (p q : P) (e : E) (events : List E)
      → follow p e ≡ some q
      → follows follow p (e ∷ events) ≡ follows follow q events
  follows-cons follow p q e events h =
      ap (λ (o : Option P). bind_all o (λ r. follows follow r events)) h
