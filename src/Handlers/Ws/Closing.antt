-- ===== src/Handlers/Ws/Closing.antt =====
-- Each pump closes the other side's connection once, when it returns.
use hallmaster_proxy.Base.{ℕ, ◌+◌, List, [], ◌∷◌, ◌++◌, ◌≡◌, arith}
use hallmaster_proxy.Handlers.Ws.{Event, close_discord, close_bot}

abbrev pub closes_discord : List Event → ℕ
closes_discord [] = 0
closes_discord (close_discord ∷ events) = closes_discord events + 1
closes_discord (_ ∷ events) = closes_discord events

abbrev pub closes_bot : List Event → ℕ
closes_bot [] = 0
closes_bot (close_bot ∷ events) = closes_bot events + 1
closes_bot (_ ∷ events) = closes_bot events

pub closes-append :
    (a b : List Event)
    → (closes_discord (a ++ b) ≡ closes_discord a + closes_discord b)
      × (closes_bot (a ++ b) ≡ closes_bot a + closes_bot b)
closes-append [] b = omega arith
closes-append (close_discord ∷ a) b = omega (arith, closes-append a b)
closes-append (close_bot ∷ a) b = omega (arith, closes-append a b)
closes-append (_ ∷ a) b = closes-append a b
