-- ===== src/Driver/Report.antt =====
-- The reports of tests/stress/driver/main.go: the rows of latencies.csv, and the numbers that
-- summary.md is made of. A blank cell is `none`; how numbers are printed and the files written is
-- left out.
pub mod Arrived
use hallmaster_proxy.Base.{
  ℕ, zero, suc, ◌&&◌, List, [], ◌∷◌, Option, none, some, ◌==◌, ltb, if◌then◌else◌, map, ℤ, pos,
  sub_ℕ,
}
use hallmaster_proxy.Text.{Bytes, codes}
use hallmaster_proxy.Driver.Recorder.{Recorder, Mode, directly, proxied, load, error_at, latency}

pub record Row : Type 0 where
  pub op : ℕ
  pub direct_ns : Option ℤ
  pub proxy_ns : Option ℤ
  pub overhead_ns : Option ℤ
  pub err : Bytes

abbrev pub zero_blank : ℤ → Option ℤ
zero_blank (pos zero) = none
zero_blank v = some v

-- p - d, where d > 0 and p > 0
abbrev pub overhead : ℤ → ℤ → Option ℤ
overhead (pos d) (pos p) = if ltb 0 d && ltb 0 p then some (sub_ℕ p d) else none
overhead d p = none

abbrev pub error_text : Option Bytes → ℕ → Bytes
error_text (some e) sent = e
error_text none zero = codes "not sent (time cap)"
error_text none (suc sent) = []

unfoldable pub csv_row : Mode → Recorder → ℕ → Row
unfolding load latency error_at
csv_row mode r i =
    let d = latency mode r directly i in
    let p = latency mode r proxied i in
    record {
      op = i;
      direct_ns = zero_blank d;
      proxy_ns = zero_blank p;
      overhead_ns = overhead d p;
      err = error_text (error_at r.errs i) (load r.sent i);
    }

-- The numbers from i on that stand for the slots.
unfoldable pub indices : ℕ → List ℕ → List ℕ
indices i [] = []
indices i (sent ∷ slots) = i ∷ indices (suc i) slots

-- writeCSV, behind the line of titles
unfoldable pub csv_rows : Mode → Recorder → List Row
unfolding indices csv_row
csv_rows mode r = map (csv_row mode r) (indices 0 r.sent)
