-- ===== src/Driver/Summary.antt =====
-- The numbers of summary.md, tests/stress/driver/main.go: writeSummary and distOf. How they are
-- printed and rounded is left out.
pub mod Agrees
use hallmaster_proxy.Base.{
  ℕ, zero, suc, ◌-◌, List, [], ◌∷◌, Option, none, some, if◌then◌else◌, length, get_elem?, ℤ, pos,
  is_positive,
}
use hallmaster_proxy.Tamper.Latency.Percentiles.{Scale, sort_durations, both, pick, p50, p95, p99}
use hallmaster_proxy.Driver.Recorder.{Recorder, Mode, directly, proxied, latency}
use hallmaster_proxy.Driver.Report.{overhead, indices}

pub record Dist : Type 0 where
  pub n : ℕ
  pub p50 : ℤ
  pub p95 : ℤ
  pub p99 : ℤ
  pub p_max : ℤ

abbrev dist : ℕ → Option (ℤ × (ℤ × (ℤ × ℤ))) → Option Dist
dist n none = none
dist n (some (a, (b, (c, m)))) = some (record { n = n; p50 = a; p95 = b; p99 = c; p_max = m })

-- distOf; `none` is an index out of range
unfoldable pub dist_of : Scale → List ℤ → Option Dist
unfolding pick sort_durations
dist_of scale [] = some (record { n = 0; p50 = pos 0; p95 = pos 0; p99 = pos 0; p_max = pos 0 })
dist_of scale (v ∷ vals) =
    let sorted = sort_durations (v ∷ vals) in
    dist (length sorted) (
      both (pick scale sorted p50) (
        both (pick scale sorted p95)
          (both (pick scale sorted p99) (get_elem? sorted (length sorted - 1)))))

-- The three lists that the first loop of writeSummary makes.
pub record Columns : Type 0 where
  pub direct : List ℤ
  pub proxy : List ℤ
  pub overheads : List ℤ

abbrev keep_positive : ℤ → List ℤ → List ℤ
keep_positive v vals = if is_positive v then v ∷ vals else vals

abbrev pub keep : Option ℤ → List ℤ → List ℤ
keep none vals = vals
keep (some v) vals = v ∷ vals

unfoldable pub columns : Mode → Recorder → List ℕ → Columns
unfolding latency
columns mode r [] = record { direct = []; proxy = []; overheads = [] }
columns mode r (i ∷ rest) =
    let d = latency mode r directly i in
    let p = latency mode r proxied i in
    let later = columns mode r rest in
    record {
      direct = keep_positive d later.direct;
      proxy = keep_positive p later.proxy;
      overheads = keep (overhead d p) later.overheads;
    }

-- The second loop: slots that are not 0.
unfoldable pub sent_count : List ℕ → ℕ
sent_count [] = 0
sent_count (zero ∷ slots) = sent_count slots
sent_count (suc t ∷ slots) = suc (sent_count slots)

pub record Summary : Type 0 where
  pub target : ℕ
  pub sent : ℕ
  pub op_errors : ℕ
  pub direct : Option Dist
  pub proxy : Option Dist
  pub overhead : Option Dist

unfoldable pub summary : Scale → Mode → Recorder → Summary
unfolding dist_of columns indices sent_count
summary scale mode r =
    let all = columns mode r (indices 0 r.sent) in
    record {
      target = length r.sent;
      sent = sent_count r.sent;
      op_errors = r.op_errors;
      direct = dist_of scale all.direct;
      proxy = dist_of scale all.proxy;
      overhead = dist_of scale all.overheads;
    }
