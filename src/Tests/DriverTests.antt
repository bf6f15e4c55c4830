-- ===== src/Tests/DriverTests.antt =====
-- The stress driver's pool of workers, and its recorder.
use hallmaster_proxy.Base.{
  some, none, if◌then◌else◌, List, ◌<◌, true, false, List, ◌⊎◌, [], ◌∷◌, pos, negsuc, ◌≡◌, refl,
  arith,
}
use hallmaster_proxy.Text.{codes, equal}
use hallmaster_proxy.Text.Decimal.{itoa, digits}
use hallmaster_proxy.Driver.Shard.{
  Incoming, message, Json, identify, ready, on_event, nonce_of, connect_gateway,
}
use hallmaster_proxy.Driver.Shard.Delivered.{
  Waits, at_once, another, Delivers, no_more, foreign, own, connect_gateway-Delivers,
}
use hallmaster_proxy.Driver.{Scenario, compute_target, workers}
use hallmaster_proxy.Driver.Ops.{Pool, Step, send, take, call, return, Reach, start, later}
use hallmaster_proxy.Driver.Ops.Ordered.{IsOrdered, Reach-IsOrdered}
use hallmaster_proxy.Driver.Ops.Ends.{IsEnded, measure, run_ops-ends}
use hallmaster_proxy.Driver.Recorder.{
  mode_gateway, Event, directly, proxied, sends, fails, arrives, new_recorder, happen, since,
  latency,
}
use hallmaster_proxy.Driver.Recorder.Arrivals.{first_arrival, last_send, latency-happen}

-- Two operations by one worker.
abbrev two_ops : Scenario
two_ops = record { rate_per_sec = 100; seconds = 300; total = 2; concurrency = 0 }

-- The first one is put on the channel, taken off, called, and returns.
abbrev first_done : Pool
first_done = record {
  next = 1;
  producing = true;
  channel = [];
  cancelled = false;
  idle = 1;
  left = 0;
  received = 0 ∷ [];
  held = [];
  running = [];
  called = 0 ∷ [];
}

first_done-Reach : Reach (compute_target two_ops) (workers two_ops) first_done
unfolding compute_target
first_done-Reach =
    later
      (later
        (later (later start (send refl (omega arith) (omega arith) refl))
          (take 0 0 [] refl refl refl))
        (call 0 [] [] refl refl))
      (return 0 [] [] refl refl)

Reach-IsOrdered_example : IsOrdered (compute_target two_ops) (workers two_ops) first_done
Reach-IsOrdered_example =
    Reach-IsOrdered (compute_target two_ops) (workers two_ops) first_done first_done-Reach

run_ops-ends_example :
    (IsEnded (compute_target two_ops) (workers two_ops) first_done
      ⊎ ((u : Pool) × Step (compute_target two_ops) first_done u))
    × ((u : Pool)
        → Step (compute_target two_ops) first_done u
        → measure (compute_target two_ops) u < measure (compute_target two_ops) first_done)
run_ops-ends_example = run_ops-ends two_ops first_done first_done-Reach

abbrev pub gateway_events : List Event
gateway_events =
    sends 0 1000
    ∷ arrives directly (pos 0) 1500
    ∷ sends 1 1600
    ∷ fails 1 (codes "status 500")
    ∷ arrives proxied (negsuc 4) 1700
    ∷ arrives proxied (pos 0) 1900
    ∷ arrives proxied (pos 0) 2500
    ∷ []

latency-happen_test :
    latency mode_gateway (happen (new_recorder 2) gateway_events) proxied 0
    ≡ since (last_send 0 0 gateway_events) (first_arrival proxied 0 gateway_events)
latency-happen_test = latency-happen 2 0 proxied gateway_events (omega arith)

latency_900 :
    since (last_send 0 0 gateway_events) (first_arrival proxied 0 gateway_events) ≡ pos 900
latency_900 = refl

-- A gateway whose messages are READY, TYPING_START, or else a nonce.
abbrev plain : Json
plain = record {
  hello = λ m. some (pos 41250);
  frame =
      λ m. some (record { op = pos 0; t = if equal m (codes "ready") then codes "READY" else m });
  notice = λ m. some (
      if equal m (codes "typing")
      then record { t = codes "TYPING_START"; nonce = [] }
      else record { t = codes "MESSAGE_CREATE"; nonce = m });
}

abbrev two_deliveries : List Incoming
two_deliveries =
    message (codes "stress-7") ∷ message (codes "typing") ∷ message (codes "stress-12") ∷ []

plain-Delivers : Delivers plain two_deliveries (7 ∷ 12 ∷ [])
unfolding equal nonce_of itoa digits
plain-Delivers = own (codes "stress-7") 7 (omega arith) refl (
    foreign (codes "typing") (record { t = codes "TYPING_START"; nonce = [] }) refl refl
      (own (codes "stress-12") 12 (omega arith) refl no_more))

plain-Waits : Waits plain (message (codes "guild") ∷ [])
unfolding equal
plain-Waits = another (codes "guild") (record { op = pos 0; t = codes "guild" }) refl refl at_once

connect_gateway-Delivers_example :
    connect_gateway plain none
      (message (codes "hello") ∷ message (codes "guild") ∷ message (codes "ready") ∷ two_deliveries)
    ≡ identify ∷ ready ∷ on_event (pos 7) ∷ on_event (pos 12) ∷ []
unfolding equal
connect_gateway-Delivers_example =
    connect_gateway-Delivers plain (codes "hello") (codes "ready") (pos 41250)
      (record { op = pos 0; t = codes "READY" }) (message (codes "guild") ∷ []) two_deliveries
      (7 ∷ 12 ∷ []) refl plain-Waits refl refl plain-Delivers
