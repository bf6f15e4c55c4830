-- ===== src/Tamper/Latency/Measured.antt =====
-- What is measured, and that measuring does not disturb.
use hallmaster_proxy.Base.{
  ℕ, suc, zero, ◌+◌, ◌-◌, false, List, [], ◌∷◌, ◌++◌, leb, length, take, ◌≡◌, refl, sym, ◌∙◌, ap,
  arith, append_assoc, append-nil, length-append, le→leb, ◌≤◌, ◌<◌, subst,
}
use hallmaster_proxy.Handlers.Https.State.{Deps, Session, Turn}
use hallmaster_proxy.Handlers.Https.Exchange.{settle}
use hallmaster_proxy.Handlers.Https.{run}
use hallmaster_proxy.Handlers.Https.Erased.{erase}
use hallmaster_proxy.Handlers.Https.Fallback.{IsHarmless, nop_deps, run_harmless}
use hallmaster_proxy.Tamper.Latency.{
  Kind, Sample, LatencyTamperer, new_latency_tamperer, record_sample, latency,
}

-- The calls of a run, from the i-th on, each with its reading of the clock.
abbrev pub stamped : (ℕ → ℕ) → ℕ → List (Kind × ℕ) → List Sample
stamped clock i [] = []
stamped clock i ((kind, n) ∷ calls) =
    record { kind = kind; at = clock i; bytes = n } ∷ stamped clock (i + 1) calls

pub record_all : LatencyTamperer → List (Kind × ℕ) → LatencyTamperer
unfolding record_sample
record_all l [] = l
record_all l ((kind, n) ∷ calls) = record_all (record_sample kind n l) calls

latency-IsHarmless : IsHarmless latency
unfolding latency settle
latency-IsHarmless = record {
  request_settles = λ req s. refl;
  response_settles = λ req resp d s. refl;
}

-- A client session that is measured shows the same events as with the no-op tamperer.
pub run-latency :
    (deps : Deps LatencyTamperer) (s : Session LatencyTamperer) (turns : List Turn)
    → deps.tamperer ≡ latency
    → run deps s turns ≡ run (nop_deps deps) (erase s) turns
run-latency deps s turns e = run_harmless deps (subst IsHarmless (sym e) latency-IsHarmless) s turns

abbrev state : List Sample → ℕ → ℕ → (ℕ → ℕ) → LatencyTamperer
state samples capacity dropped clock = record {
  samples = samples;
  capacity = capacity;
  dropped = dropped;
  clock = clock;
}

add_zero : (n : ℕ) → n + 0 ≡ n
add_zero n = omega arith

full :
    (samples : List Sample) (capacity dropped : ℕ) (clock : ℕ → ℕ) (calls : List (Kind × ℕ))
    → capacity ≤ length samples
    → record_all (state samples capacity dropped clock) calls
      ≡ state samples capacity (dropped + length calls) clock
unfolding record_all record_sample
full samples capacity dropped clock [] h = ap (λ d. state samples capacity d clock) (omega arith)
full samples capacity dropped clock ((kind, n) ∷ calls) h =
    rw (le→leb capacity (length samples) h) (
      full samples capacity (dropped + 1) clock calls h
      ∙ ap (λ d. state samples capacity d clock) (omega arith))

take_nil : {A : Type 0} (n : ℕ) → take {A = A} n [] ≡ []
take_nil zero = refl
take_nil (suc n) = refl

not_full : (a b : ℕ) → b < a → leb a b ≡ false
not_full a b h = ground arith

room :
    (samples : List Sample) (space capacity : ℕ) (clock : ℕ → ℕ) (calls : List (Kind × ℕ))
    → capacity ≡ length samples + space
    → record_all (state samples capacity 0 clock) calls
      ≡ state
          (samples ++ take space (stamped clock (length samples) calls))
          capacity
          (length calls - space)
          clock
unfolding record_all record_sample
room samples space capacity clock [] e =
    rw (take_nil space, append-nil samples) (ap (λ d. state samples capacity d clock) (omega arith))
room samples zero capacity clock ((kind, n) ∷ calls) e =
    full samples capacity 0 clock ((kind, n) ∷ calls) (omega arith)
    ∙ rw (append-nil samples) (ap (λ d. state samples capacity d clock) (omega arith))
room samples (suc space) capacity clock ((kind, n) ∷ calls) e =
    let x : Sample = record { kind = kind; at = clock (length samples); bytes = n } in
    let longer = length-append samples (x ∷ []) in
    rw (not_full capacity (length samples) (omega arith), add_zero (length samples))
      (room (samples ++ (x ∷ [])) space capacity clock calls (omega (arith, longer))
        ∙ rw
            (
              longer,
              append_assoc samples (x ∷ []) (take space (stamped clock (length samples + 1) calls)),
            )
            (ap
              (λ d.
                state (samples ++ (x ∷ take space (stamped clock (length samples + 1) calls)))
                  capacity d clock)
              (omega arith)))

-- Of a row of hook calls the first `capacity` are recorded in order, with their kinds, sizes and
-- times, and the rest are counted as dropped.
pub record_all-take :
    (capacity : ℕ) (clock : ℕ → ℕ) (calls : List (Kind × ℕ))
    → record_all (new_latency_tamperer capacity clock) calls ≡ record {
      samples = take capacity (stamped clock 0 calls);
      capacity = capacity;
      dropped = length calls - capacity;
      clock = clock;
    }
record_all-take capacity clock calls = room [] capacity capacity clock calls (omega arith)
