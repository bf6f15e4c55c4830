-- ===== src/Internaltest/Exact.antt =====
-- Sub is the difference of the true counts.
use hallmaster_proxy.Base.{ℕ, ◌+◌, ◌%◌, ◌≤◌, ◌<◌, sub_ℕ, ◌≡◌, refl, arith}
use hallmaster_proxy.Internaltest.{
  two_63, two_64, two_31, two_32, int64, int32, sub_64, sub_32, MemStats, snapshot_runtime, sub,
}

-- Two counts whose difference a signed word holds, whose lowest value is -`half`.
abbrev pub IsClose : ℕ → ℕ → ℕ → Type 0
IsClose half a b = (a ≤ b + half) × (b < a + half)

exact_64 : (a b : ℕ) → IsClose two_63 a b → int64 (sub_64 (b % two_64) (a % two_64)) ≡ sub_ℕ b a
unfolding int64 sub_64
exact_64 a b (low, high) = ground arith

exact_32 : (a b : ℕ) → IsClose two_31 a b → int32 (sub_32 (b % two_32) (a % two_32)) ≡ sub_ℕ b a
unfolding int32 sub_32
exact_32 a b (low, high) = ground arith

-- What the counters can have done between two snapshots.
pub record IsWindow (a b : MemStats) : Type 0 where
  pub heap : IsClose two_63 a.heap_alloc b.heap_alloc
  pub allocs : IsClose two_63 a.total_alloc b.total_alloc
  pub goroutines : IsClose two_63 a.num_goroutine b.num_goroutine
  pub gcs : IsClose two_31 a.num_gc b.num_gc

-- The difference of two snapshots is the difference of the true counts, negative ones included and
-- even if a counter has wrapped around in between, as long as each count has risen by less than half
-- of what its word can hold, and fallen by no more than half.
pub sub-snapshot_runtime :
    (a b : MemStats)
    → IsWindow a b
    → sub (snapshot_runtime a) (snapshot_runtime b) ≡ record {
      heap_alloc_bytes = sub_ℕ b.heap_alloc a.heap_alloc;
      total_allocs = sub_ℕ b.total_alloc a.total_alloc;
      goroutines = sub_ℕ b.num_goroutine a.num_goroutine;
      gc_count = sub_ℕ b.num_gc a.num_gc;
    }
unfolding sub snapshot_runtime
sub-snapshot_runtime a b window =
    rw
      (
        exact_64 a.heap_alloc b.heap_alloc window.heap,
        exact_64 a.total_alloc b.total_alloc window.allocs,
        exact_64 a.num_goroutine b.num_goroutine window.goroutines,
        exact_32 a.num_gc b.num_gc window.gcs,
      )
      refl
