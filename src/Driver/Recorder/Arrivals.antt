-- ===== src/Driver/Recorder/Arrivals.antt =====
-- What the recorder makes of sends and arrivals that interleave.
use hallmaster_proxy.Base.{
  ℕ, zero, suc, ◌<◌, ◌&&◌, not, List, [], ◌∷◌, Option, none, some, ◌==◌, if◌then◌else◌, pos, negsuc,
  length, ◌≡◌, refl, ap, ap₂, ◌∙◌, arith,
}
use hallmaster_proxy.Text.{Bytes}
use hallmaster_proxy.Driver.Recorder.{
  Recorder, Slots, mode_gateway, Via, directly, proxied, Event, sends, fails, arrives, replicate,
  set, load, new_recorder, swap, store, fail, happens, error_at, happen, slots_of, since, latency,
}

-- The first time after 0 at which an operation's event arrives, or 0.
abbrev pub first_arrival : Via → ℕ → List Event → ℕ
first_arrival via i [] = 0
first_arrival directly i (arrives directly (pos n) t ∷ events) =
    if n == i && not (t == 0) then t else first_arrival directly i events
first_arrival proxied i (arrives proxied (pos n) t ∷ events) =
    if n == i && not (t == 0) then t else first_arrival proxied i events
first_arrival via i (_ ∷ events) = first_arrival via i events

-- The last time of sending.
abbrev pub last_send : ℕ → ℕ → List Event → ℕ
last_send t i [] = t
last_send t i (sends n t' ∷ events) = last_send (if n == i then t' else t) i events
last_send t i (_ ∷ events) = last_send t i events

-- The error of the last dispatch that failed, if any.
abbrev pub last_fail : Option Bytes → ℕ → List Event → Option Bytes
last_fail x i [] = x
last_fail x i (fails n e ∷ events) = last_fail (if n == i then some e else x) i events
last_fail x i (_ ∷ events) = last_fail x i events

load-swap :
    (slots : Slots) (n v i : ℕ)
    → i < length slots
    → (load (swap slots n v) i ≡ (if n == i && load slots i == 0 then v else load slots i))
      × (i < length (swap slots n v))
unfolding load swap
load-swap [] n v i h = absurd (omega (arith, h))
load-swap (x ∷ slots) zero v zero h = ground arith
load-swap (x ∷ slots) zero v (suc i) h = ground arith
load-swap (x ∷ slots) (suc n) v zero h = ground arith
load-swap (x ∷ slots) (suc n) v (suc i) h = ground (arith, load-swap slots n v i (omega (arith, h)))

pub load-set :
    (slots : Slots) (n v i : ℕ)
    → i < length slots
    → (load (set slots n v) i ≡ (if n == i then v else load slots i)) × (i < length (set slots n v))
unfolding load set
load-set [] n v i h = absurd (omega (arith, h))
load-set (x ∷ slots) zero v zero h = ground arith
load-set (x ∷ slots) zero v (suc i) h = ground arith
load-set (x ∷ slots) (suc n) v zero h = ground arith
load-set (x ∷ slots) (suc n) v (suc i) h = ground (arith, load-set slots n v i (omega (arith, h)))

pub load-replicate :
    (n i : ℕ) → i < n → (load (replicate n 0) i ≡ 0) × (i < length (replicate {A = ℕ} n 0))
unfolding load replicate
load-replicate zero i h = absurd (omega (arith, h))
load-replicate (suc n) zero h = ground arith
load-replicate (suc n) (suc i) h = ground (arith, load-replicate n i (omega (arith, h)))

pub error_at-set :
    (errs : List (Option Bytes)) (n : ℕ) (e : Option Bytes) (i : ℕ)
    → i < length errs
    → (error_at (set errs n e) i ≡ (if n == i then e else error_at errs i))
      × (i < length (set errs n e))
unfolding error_at set
error_at-set [] n e i h = absurd (omega (arith, h))
error_at-set (x ∷ errs) zero e zero h = ground arith
error_at-set (x ∷ errs) zero e (suc i) h = ground arith
error_at-set (x ∷ errs) (suc n) e zero h = ground arith
error_at-set (x ∷ errs) (suc n) e (suc i) h =
    ground (arith, error_at-set errs n e i (omega (arith, h)))

pub error_at-replicate :
    (n i : ℕ)
    → i < n
    → (error_at (replicate n none) i ≡ none) × (i < length (replicate {A = Option Bytes} n none))
unfolding error_at replicate
error_at-replicate zero i h = absurd (omega (arith, h))
error_at-replicate (suc n) zero h = ground arith
error_at-replicate (suc n) (suc i) h = ground (arith, error_at-replicate n i (omega (arith, h)))

direct_arrival :
    (r : Recorder) (i : ℕ) (events : List Event)
    → i < length r.direct
    → load (happen r events).direct i
      ≡ (if load r.direct i == 0 then first_arrival directly i events else load r.direct i)
unfolding happen happens store
direct_arrival r i [] h = ground arith
direct_arrival r i (arrives directly (pos n) t ∷ events) h =
    let (loaded, longer) = load-swap r.direct n t i h in
    let r' = happens r (arrives directly (pos n) t) in
    ground (arith, loaded, direct_arrival r' i events longer)
direct_arrival r i (arrives directly (negsuc n) t ∷ events) h = direct_arrival r i events h
direct_arrival r i (arrives proxied n t ∷ events) h =
    direct_arrival (happens r (arrives proxied n t)) i events h
direct_arrival r i (sends n t ∷ events) h = direct_arrival (happens r (sends n t)) i events h
direct_arrival r i (fails n e ∷ events) h = direct_arrival (happens r (fails n e)) i events h

proxied_arrival :
    (r : Recorder) (i : ℕ) (events : List Event)
    → i < length r.proxy
    → load (happen r events).proxy i
      ≡ (if load r.proxy i == 0 then first_arrival proxied i events else load r.proxy i)
unfolding happen happens store
proxied_arrival r i [] h = ground arith
proxied_arrival r i (arrives proxied (pos n) t ∷ events) h =
    let (loaded, longer) = load-swap r.proxy n t i h in
    let r' = happens r (arrives proxied (pos n) t) in
    ground (arith, loaded, proxied_arrival r' i events longer)
proxied_arrival r i (arrives proxied (negsuc n) t ∷ events) h = proxied_arrival r i events h
proxied_arrival r i (arrives directly n t ∷ events) h =
    proxied_arrival (happens r (arrives directly n t)) i events h
proxied_arrival r i (sends n t ∷ events) h = proxied_arrival (happens r (sends n t)) i events h
proxied_arrival r i (fails n e ∷ events) h = proxied_arrival (happens r (fails n e)) i events h

sending :
    (r : Recorder) (i : ℕ) (events : List Event)
    → i < length r.sent
    → load (happen r events).sent i ≡ last_send (load r.sent i) i events
unfolding happen happens
sending r i [] h = refl
sending r i (sends n t ∷ events) h =
    let (loaded, longer) = load-set r.sent n t i h in
    sending (happens r (sends n t)) i events longer ∙ ap (λ (x : ℕ). last_send x i events) loaded
sending r i (fails n e ∷ events) h = sending (happens r (fails n e)) i events h
sending r i (arrives directly n t ∷ events) h =
    sending (happens r (arrives directly n t)) i events h
sending r i (arrives proxied n t ∷ events) h = sending (happens r (arrives proxied n t)) i events h

failing :
    (r : Recorder) (i : ℕ) (events : List Event)
    → i < length r.errs
    → error_at (happen r events).errs i ≡ last_fail (error_at r.errs i) i events
unfolding happen happens fail
failing r i [] h = refl
failing r i (fails n e ∷ events) h =
    let (found, longer) = error_at-set r.errs n (some e) i h in
    failing (happens r (fails n e)) i events longer
    ∙ ap (λ (x : Option Bytes). last_fail x i events) found
failing r i (sends n t ∷ events) h = failing (happens r (sends n t)) i events h
failing r i (arrives directly n t ∷ events) h =
    failing (happens r (arrives directly n t)) i events h
failing r i (arrives proxied n t ∷ events) h = failing (happens r (arrives proxied n t)) i events h

arrival :
    (n i : ℕ) (via : Via) (events : List Event)
    → i < n
    → load (slots_of via (happen (new_recorder n) events)) i ≡ first_arrival via i events
unfolding new_recorder
arrival n i directly events h =
    let (zeros, there) = load-replicate n i h in
    direct_arrival (new_recorder n) i events there ∙ rw zeros refl
arrival n i proxied events h =
    let (zeros, there) = load-replicate n i h in
    proxied_arrival (new_recorder n) i events there ∙ rw zeros refl

pub sending_new :
    (n i : ℕ) (events : List Event)
    → i < n
    → load (happen (new_recorder n) events).sent i ≡ last_send 0 i events
unfolding new_recorder
sending_new n i events h =
    let (zeros, there) = load-replicate n i h in
    sending (new_recorder n) i events there ∙ ap (λ (x : ℕ). last_send x i events) zeros

pub failing_new :
    (n i : ℕ) (events : List Event)
    → i < n
    → error_at (happen (new_recorder n) events).errs i ≡ last_fail none i events
unfolding new_recorder
failing_new n i events h =
    let (empty, there) = error_at-replicate n i h in
    failing (new_recorder n) i events there ∙ ap (λ (x : Option Bytes). last_fail x i events) empty

-- The latency over a path is the time of the first arrival over it less that of the last send.
pub latency-happen :
    (n i : ℕ) (via : Via) (events : List Event)
    → i < n
    → latency mode_gateway (happen (new_recorder n) events) via i
      ≡ since (last_send 0 i events) (first_arrival via i events)
unfolding latency
latency-happen n i via events h = ap₂ since (sending_new n i events h) (arrival n i via events h)
