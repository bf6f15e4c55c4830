-- ===== src/Tests/LatencyTests.antt =====
-- A round trip that is measured among other samples, a clock, and bytes that arrive in pieces.
use mathlib.Core.List.{Mem}
use hallmaster_proxy.Base.{
  ℕ, ◌≤◌, ◌/◌, ◌*◌, ◌++◌, List, [], ◌∷◌, some, ◌≡◌, refl, arith, length, ℤ, pos, drop,
}
use hallmaster_proxy.Text.{codes}
use hallmaster_proxy.Bufio.{Conn, arriving, stream}
use hallmaster_proxy.Tamper.Latency.{
  Kind, kind_request, kind_response, Sample, LatencyTamperer, new_latency_tamperer,
}
use hallmaster_proxy.Tamper.Latency.Pairs.{pairs, is_kind}
use hallmaster_proxy.Tamper.Latency.Pairs.Paired.{Paired, pairs-Paired}
use hallmaster_proxy.Tamper.Latency.Percentiles.{Scale, Fraction, p50, p95, p99, percentiles}
use hallmaster_proxy.Tamper.Latency.Percentiles.Ranked.{◌≤ℤ◌, IsScale, percentiles-Mem}
use hallmaster_proxy.Mitm.Wire.{
  consumed, handshake_reads, nested_reads, handshake_reads-drop, nested_reads-later,
}

abbrev sample : Kind → ℕ → Sample
sample kind time = record { kind = kind; at = time; bytes = 0 }

abbrev measured : LatencyTamperer
measured = record (new_latency_tamperer 8 (λ i. i)) {
  samples =
      sample kind_response 1
      ∷ sample kind_request 3
      ∷ sample kind_request 4
      ∷ sample kind_response 9
      ∷ sample kind_request 11
      ∷ [];
}

one_pair : pairs measured kind_request kind_response ≡ some (pos 6 ∷ [])
unfolding pairs is_kind
one_pair = refl

pairs-Paired_example :
    (durations : List ℤ) × (pairs measured kind_request kind_response ≡ some durations)
    × Paired kind_request kind_response measured.samples durations
    × (length durations ≤ length measured.samples / 2)
pairs-Paired_example = pairs-Paired measured kind_request kind_response

abbrev percent : Fraction → ℕ
percent p50 = 50
percent p95 = 95
percent p99 = 99

abbrev pub exact : Scale
exact n p = n * percent p / 100

pub exact-IsScale : IsScale exact
exact-IsScale = record {
  within = λ n. omega arith;
  p50_le = λ n. omega arith;
  p95_le = λ n. omega arith;
}

percentiles-Mem_test :
    (a b c : ℤ) × (percentiles exact (pos 6 ∷ pos 2 ∷ pos 9 ∷ []) ≡ some (a, (b, c)))
    × (a ≤ℤ b)
    × (b ≤ℤ c)
    × Mem a (pos 6 ∷ pos 2 ∷ pos 9 ∷ [])
    × Mem b (pos 6 ∷ pos 2 ∷ pos 9 ∷ [])
    × Mem c (pos 6 ∷ pos 2 ∷ pos 9 ∷ [])
percentiles-Mem_test = percentiles-Mem exact (pos 6) (pos 2 ∷ pos 9 ∷ []) exact-IsScale

-- Five bytes of a CONNECT, with the hello partly behind it and partly later.
abbrev pieces : Conn
pieces = codes "CON" ∷ codes "NThel" ∷ codes "lo" ∷ []

handshake_reads-drop_example :
    (handshake_reads (some 5) (2 ∷ 9 ∷ []) pieces).0
      ++ stream (handshake_reads (some 5) (2 ∷ 9 ∷ []) pieces).1
    ≡ drop (consumed (some 5)) (arriving pieces)
handshake_reads-drop_example = handshake_reads-drop (some 5) (2 ∷ 9 ∷ []) pieces

nested_reads-later_example :
    (nested_reads 5 (4 ∷ []) ((codes "CONNT" ++ codes "hello") ∷ codes "more" ∷ [])).0
      ++ arriving (nested_reads 5 (4 ∷ []) ((codes "CONNT" ++ codes "hello") ∷ codes "more" ∷ [])).1
    ≡ arriving (codes "more" ∷ [])
nested_reads-later_example =
    nested_reads-later (codes "CONNT") (codes "hello") (codes "more" ∷ []) (4 ∷ []) (omega arith)
      (omega arith)
