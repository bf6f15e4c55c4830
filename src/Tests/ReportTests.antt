-- ===== src/Tests/ReportTests.antt =====
-- The stress driver's set-up, its REST operations, and its reports.
use hallmaster_proxy.Base.{
  ℕ, Result, true, false, All, List, [], ◌∷◌, none, some, ok, err, length, pos, ◌≡◌, refl, arith,
}
use mathlib.Core.List.{Mem}
use hallmaster_proxy.Text.{Bytes, codes}
use hallmaster_proxy.Tamper.Latency.Percentiles.{percentiles}
use hallmaster_proxy.Tamper.Latency.Percentiles.Ranked.{◌≤ℤ◌}
use hallmaster_proxy.Driver.{Scenario}
use hallmaster_proxy.Driver.Control.{Json}
use hallmaster_proxy.Driver.Recorder.{
  mode_gateway, mode_rest, Recorder, Via, directly, proxied, new_recorder, happen, since, latency,
}
use hallmaster_proxy.Driver.Recorder.Arrivals.{first_arrival, last_send, last_fail}
use hallmaster_proxy.Driver.Report.{zero_blank, overhead, error_text, csv_row, csv_rows}
use hallmaster_proxy.Driver.Report.Arrived.{csv_row-happen}
use hallmaster_proxy.Driver.Rest.{RestEvent, starts, returns, rest_op, rest_happen}
use hallmaster_proxy.Driver.Rest.Timed.{round_trip, error_of, csv_row-rest_op}
use hallmaster_proxy.Driver.Summary.{Dist, summary}
use hallmaster_proxy.Driver.Summary.Agrees.{summary-csv}
use hallmaster_proxy.Driver.Setup.{Answers}
use hallmaster_proxy.Tests.DriverTests.{gateway_events}
use hallmaster_proxy.Tests.LatencyTests.{exact, exact-IsScale}

csv_row-happen_example :
    let d = since (last_send 0 0 gateway_events) (first_arrival directly 0 gateway_events) in
    let p = since (last_send 0 0 gateway_events) (first_arrival proxied 0 gateway_events) in
    csv_row mode_gateway (happen (new_recorder 2) gateway_events) 0 ≡ record {
      op = 0;
      direct_ns = zero_blank d;
      proxy_ns = zero_blank p;
      overhead_ns = overhead d p;
      err = error_text (last_fail none 0 gateway_events) (last_send 0 0 gateway_events);
    }
csv_row-happen_example = csv_row-happen 2 0 gateway_events (omega arith)

-- Operation 1 goes through the proxy first; its direct request fails.
abbrev second_answers : Via → Result Bytes ℕ
second_answers proxied = ok 40
second_answers directly = err (codes "timeout")

abbrev two_rest_ops : List RestEvent
two_rest_ops =
    starts 0 10
    ∷ starts 1 11
    ∷ returns directly 0 (ok 30)
    ∷ returns proxied 1 (ok 40)
    ∷ returns directly 1 (err (codes "timeout"))
    ∷ returns proxied 0 (ok 55)
    ∷ []

second_row : csv_row mode_rest (rest_happen (new_recorder 2) two_rest_ops) 1 ≡ record {
  op = 1;
  direct_ns = none;
  proxy_ns = some (pos 40);
  overhead_ns = none;
  err = codes "timeout";
}
unfolding csv_row rest_happen new_recorder latency
second_row = refl

csv_row-rest_op_test :
    let d = pos (round_trip (second_answers directly)) in
    let p = pos (round_trip (second_answers proxied)) in
    csv_row mode_rest (rest_happen (new_recorder 2) two_rest_ops) 1 ≡ record {
      op = 1;
      direct_ns = zero_blank d;
      proxy_ns = zero_blank p;
      overhead_ns = overhead d p;
      err = error_text (error_of 1 second_answers) 11;
    }
unfolding rest_op
csv_row-rest_op_test = csv_row-rest_op 2 1 11 second_answers two_rest_ops (omega arith) refl

abbrev rest_recorder : Recorder
rest_recorder = rest_happen (new_recorder 2) two_rest_ops

summary-csv_example :
    (found : Dist) × ((summary exact mode_rest rest_recorder).overhead ≡ some found)
    × (found.n ≡ length (pos 25 ∷ []))
    × (percentiles exact (pos 25 ∷ []) ≡ some (found.p50, (found.p95, found.p99)))
    × (found.p50 ≤ℤ found.p95)
    × (found.p95 ≤ℤ found.p99)
    × (found.p99 ≤ℤ found.p_max)
    × Mem found.p_max (pos 25 ∷ [])
    × All (λ e. e ≤ℤ found.p_max) (pos 25 ∷ [])
unfolding csv_rows rest_happen new_recorder latency
summary-csv_example = summary-csv exact mode_rest rest_recorder (pos 25) [] exact-IsScale refl

-- Replies whose text is the value.
abbrev raw_json : Json
raw_json = record {
  created = λ b. ok (record { session_id = b; token = b });
  loop = λ b. ok (record { success = some true; enabled = some false });
  dispatched = λ b. ok (pos 2);
  url = λ b. ok b;
}

abbrev two_ops : Scenario
two_ops = record { rate_per_sec = 0; seconds = 0; total = 2; concurrency = 1 }

abbrev all_well : Answers
all_well = record {
  session = ok (record { status_code = 200; raw = codes "s1" });
  loop = ok (record { status_code = 200; raw = [] });
  gateway = ok (record { status_code = 200; raw = codes "wss://discord.com" });
  connect = λ via url. none;
}
