-- ===== src/Tamper/Latency/Pairs.antt =====
-- Pairs of internaltest/latency.go: the time from each `enter` to the next `exit`. An index that only
-- moves forward is the rest of the samples.
pub mod Paired
use hallmaster_proxy.Base.{
  ℕ, zero, suc, Bool, true, false, List, [], ◌∷◌, Option, none, some, ◌==◌, if◌then◌else◌, length,
  ℤ, sub_ℕ,
}
use hallmaster_proxy.Tamper.Latency.{
  Kind, kind_request, kind_response, kind_ws_incoming, kind_ws_outgoing, Sample, LatencyTamperer,
}

-- iota
abbrev pub kind_value : Kind → ℕ
kind_value kind_request = 0
kind_value kind_response = 1
kind_value kind_ws_incoming = 2
kind_value kind_ws_outgoing = 3

unfoldable pub is_kind : Kind → Sample → Bool
is_kind kind s = kind_value s.kind == kind_value kind

-- Samples: a copy
abbrev pub samples_of : LatencyTamperer → List Sample
samples_of l = l.samples

-- The inner loop: the first `exit` behind, and what follows it.
pub next_exit : Kind → List Sample → Option (Sample × List Sample)
next_exit exit [] = none
next_exit exit (t ∷ rest) =
    let later = next_exit exit rest in if is_kind exit t then some (t, rest) else later

abbrev pub and_duration : Sample → Sample → Option (List ℤ) → Option (List ℤ)
and_duration s t none = none
and_duration s t (some durations) = some (sub_ℕ t.at s.at ∷ durations)

-- The outer loop, whose rounds go down `fuel`; `none` if it runs out.
pub pairs_loop : ℕ → Kind → Kind → List Sample → Option (List ℤ)
unfolding next_exit
pairs_loop fuel enter exit [] = some []
pairs_loop zero enter exit (s ∷ rest) = none
pairs_loop (suc fuel) enter exit (s ∷ rest) = elim (is_kind enter s) [
  | false ↦ pairs_loop fuel enter exit rest
  | true ↦ elim (next_exit exit rest) [
    | none ↦ pairs_loop fuel enter exit rest
    | some (t, rest') ↦ and_duration s t (pairs_loop fuel enter exit rest')
  ]
]

-- Pairs
unfoldable pub pairs : LatencyTamperer → Kind → Kind → Option (List ℤ)
unfolding pairs_loop
pairs l enter exit = pairs_loop (length (samples_of l)) enter exit (samples_of l)
