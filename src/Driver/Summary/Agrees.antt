-- ===== src/Driver/Summary/Agrees.antt =====
-- The summary counts what latencies.csv lists, as Percentiles of internaltest counts it.
use mathlib.Core.List.{Mem}
use mathlib.Core.List.Perm
use hallmaster_proxy.Base.{
  ℕ, zero, suc, ◌-◌, List, [], ◌∷◌, Option, some, length, get_elem?, map, ℤ, All, subst, ◌≡◌, refl,
  ap, ◌∙◌, arith,
}
use hallmaster_proxy.Tamper.Latency.Percentiles.{
  sort_durations, p50, p95, p99, Scale, pick, percentiles,
}
use hallmaster_proxy.Tamper.Latency.Percentiles.Ranked.{
  ◌≤ℤ◌, IsSorted, sort_durations-IsSorted, sort_durations-perm, length-sort_durations, elem_at,
  elem-mem, in_order, IsScale, All-of_sort,
}
use hallmaster_proxy.Driver.Recorder.{Recorder, Mode}
use hallmaster_proxy.Driver.Report.{Row, csv_row, csv_rows, indices}
use hallmaster_proxy.Driver.Summary.{Dist, dist_of, keep, columns, summary}

-- The cells that are not blank.
abbrev pub filled : List (Option ℤ) → List ℤ
filled [] = []
filled (cell ∷ cells) = keep cell (filled cells)

columns-csv :
    (mode : Mode) (r : Recorder) (numbers : List ℕ)
    → (columns mode r numbers).overheads
      ≡ filled (map (λ (row : Row). row.overhead_ns) (map (csv_row mode r) numbers))
unfolding columns csv_row
columns-csv mode r [] = refl
columns-csv mode r (i ∷ numbers) =
    ap (λ (vals : List ℤ). keep (csv_row mode r i).overhead_ns vals) (columns-csv mode r numbers)

none_left : (m : ℤ) (l : List ℤ) → suc (length l) ≡ 1 → All (λ e. e ≤ℤ m) l
none_left m [] size = tt
none_left m (e ∷ l) size = absurd (omega arith)

-- Below the last of a sorted list are all of it.
All-last :
    (l : List ℤ) (k : ℕ) {m : ℤ}
    → IsSorted l
    → length l ≡ suc k
    → get_elem? l k ≡ some m
    → All (λ e. e ≤ℤ m) l
All-last [] k s size h = tt
All-last (d ∷ l) zero {m} s size h =
    (in_order (d ∷ l) 0 0 s (omega arith) refl h, none_left m l size)
All-last (d ∷ l) (suc k) s size h =
    (in_order (d ∷ l) 0 (suc k) s (omega arith) refl h, All-last l k s.1 (omega arith) h)

-- The numbers that summary.md has for the overhead are those of the cells of that column of
-- latencies.csv that are not blank. If there are any, they are how many there are, the three that
-- Percentiles of internaltest returns for them, in ascending order, and the greatest of them.
pub summary-csv :
    (scale : Scale) (mode : Mode) (r : Recorder) (d : ℤ) (cells : List ℤ)
    → IsScale scale
    → filled (map (λ (row : Row). row.overhead_ns) (csv_rows mode r)) ≡ d ∷ cells
    → (found : Dist) × ((summary scale mode r).overhead ≡ some found)
      × (found.n ≡ length (d ∷ cells))
      × (percentiles scale (d ∷ cells) ≡ some (found.p50, (found.p95, found.p99)))
      × (found.p50 ≤ℤ found.p95)
      × (found.p95 ≤ℤ found.p99)
      × (found.p99 ≤ℤ found.p_max)
      × Mem found.p_max (d ∷ cells)
      × All (λ e. e ≤ℤ found.p_max) (d ∷ cells)
unfolding summary dist_of percentiles pick csv_rows
summary-csv scale mode r d cells is_scale column =
    let sorted = sort_durations (d ∷ cells) in
    let k = length cells in
    let size : length sorted ≡ suc k = length-sort_durations (d ∷ cells) in
    let n = length sorted - 1 in
    let in_range = is_scale.within n in
    let le = is_scale.p50_le n in
    let le' = is_scale.p95_le n in
    let (a, at_a) = elem_at sorted (scale n p50) (omega arith) in
    let (b, at_b) = elem_at sorted (scale n p95) (omega arith) in
    let (c, at_c) = elem_at sorted (scale n p99) (omega arith) in
    let (m, at_m) = elem_at sorted n (omega arith) in
    let is_sorted = sort_durations-IsSorted (d ∷ cells) in
    (
      record { n = length sorted; p50 = a; p95 = b; p99 = c; p_max = m },
      ap (dist_of scale) (columns-csv mode r (indices 0 r.sent) ∙ column)
          ∙ rw (at_a, at_b, at_c, at_m) refl,
      size,
      rw (at_a, at_b, at_c) refl,
      in_order sorted (scale n p50) (scale n p95) is_sorted le at_a at_b,
      in_order sorted (scale n p95) (scale n p99) is_sorted le' at_b at_c,
      in_order sorted (scale n p99) n is_sorted in_range at_c at_m,
      (Perm.mem_iff (sort_durations-perm (d ∷ cells))).0 (elem-mem sorted n at_m),
      All-of_sort m (d ∷ cells) (
          All-last sorted k is_sorted size
            (subst (λ (i : ℕ). get_elem? sorted i ≡ some m) (omega arith) at_m)),
    )
