-- ===== src/Driver/Report/Arrived.antt =====
-- What latencies.csv says of an operation of a gateway scenario.
use hallmaster_proxy.Base.{ℕ, ◌<◌, List, none, ◌≡◌, refl}
use hallmaster_proxy.Driver.Recorder.{
  mode_gateway, Event, directly, proxied, new_recorder, happen, since,
}
use hallmaster_proxy.Driver.Recorder.Arrivals.{
  first_arrival, last_send, last_fail, sending_new, failing_new, latency-happen,
}
use hallmaster_proxy.Driver.Report.{zero_blank, overhead, error_text, csv_row}

-- However sends, failures and arrivals interleave, the row that a gateway scenario writes to
-- latencies.csv for an operation below the target has, for each path, the time of its first arrival (after time
-- 0) over that path less the time of its last send, blank if that is 0 or none has arrived, and the
-- difference of the two where both are above 0; and the error of its last failure, or else a note if
-- it was never sent. Arrivals that come twice or carry a number out of range change nothing.
pub csv_row-happen :
    (n i : ℕ) (events : List Event)
    → i < n
    → let d = since (last_send 0 i events) (first_arrival directly i events) in
      let p = since (last_send 0 i events) (first_arrival proxied i events) in
      csv_row mode_gateway (happen (new_recorder n) events) i ≡ record {
        op = i;
        direct_ns = zero_blank d;
        proxy_ns = zero_blank p;
        overhead_ns = overhead d p;
        err = error_text (last_fail none i events) (last_send 0 i events);
      }
unfolding csv_row
csv_row-happen n i events h =
    rw
      (
        latency-happen n i directly events h,
        latency-happen n i proxied events h,
        sending_new n i events h,
        failing_new n i events h,
      )
      refl
