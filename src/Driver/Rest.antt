-- ===== src/Driver/Rest.antt =====
-- A REST operation of tests/stress/driver/main.go: the same request over both paths, whose round
-- trips the recorder keeps. Operations of several workers interleave. The requests over HTTP are
-- the environment's.
pub mod Timed
use hallmaster_proxy.Base.{ℕ, ◌%◌, List, [], ◌∷◌, Result, ok, err, ◌==◌, if◌then◌else◌, map}
use hallmaster_proxy.Text.{Bytes}
use hallmaster_proxy.Driver.Recorder.{Recorder, Via, directly, proxied, set, fail}

-- op stamps its start; then gatewayURL fails, or returns after a round trip.
pub data RestEvent : Type 0 where
  starts : ℕ → ℕ → RestEvent
  returns : Via → ℕ → Result Bytes ℕ → RestEvent

-- The order of the paths, which alternates.
abbrev pub paths : ℕ → List Via
paths i = if i % 2 == 1 then proxied ∷ directly ∷ [] else directly ∷ proxied ∷ []

-- What operation i does, started at t.
unfoldable pub rest_op : ℕ → ℕ → (Via → Result Bytes ℕ) → List RestEvent
rest_op i t answers = starts i t ∷ map (λ via. returns via i (answers via)) (paths i)

unfoldable pub rest_happens : Recorder → RestEvent → Recorder
unfolding set fail
rest_happens r (starts i t) = record r { sent = set r.sent i t }
rest_happens r (returns via i (err e)) = fail r i e
rest_happens r (returns directly i (ok d)) = record r { direct = set r.direct i d }
rest_happens r (returns proxied i (ok d)) = record r { proxy = set r.proxy i d }

unfoldable pub rest_happen : Recorder → List RestEvent → Recorder
unfolding rest_happens
rest_happen r [] = r
rest_happen r (e ∷ events) = rest_happen (rest_happens r e) events
