-- ===== src/Internaltest.antt =====
-- proxy/internals/internaltest: helpers of the proxy's tests and benchmarks. Here runtimestats.go,
-- with the machine's integers written out as remainders.
pub mod Exact
pub mod Ca
use hallmaster_proxy.Base.{
  ℕ, suc, ◌+◌, ◌-◌, ◌*◌, ◌/◌, ◌%◌, ◌≤◌, ◌<◌, Bool, true, false, ltb, if◌then◌else◌, ℤ, pos, negsuc,
}

abbrev pub two_63 : ℕ
two_63 = 0x8000000000000000

abbrev pub two_64 : ℕ
two_64 = 0x10000000000000000

abbrev pub two_31 : ℕ
two_31 = 0x80000000

abbrev pub two_32 : ℕ
two_32 = 0x100000000

-- What a word of 64 or 32 bits is as an int64 or int32.
unfoldable pub int64 : ℕ → ℤ
int64 n = if ltb n two_63 then pos n else negsuc (two_64 - 1 - n)

unfoldable pub int32 : ℕ → ℤ
int32 n = if ltb n two_31 then pos n else negsuc (two_32 - 1 - n)

-- Subtraction of words; a conversion between signed and unsigned keeps the word.
unfoldable pub sub_64 : ℕ → ℕ → ℕ
sub_64 b a = (b + (two_64 - a)) % two_64

unfoldable pub sub_32 : ℕ → ℕ → ℕ
sub_32 b a = (b + (two_32 - a)) % two_32

-- Words; `goroutines` is an int, which has 64 bits.
pub record RuntimeSnapshot : Type 0 where
  pub heap_alloc_bytes : ℕ
  pub total_allocs : ℕ
  pub goroutines : ℕ
  pub gc_count : ℕ

pub record RuntimeDiff : Type 0 where
  pub heap_alloc_bytes : ℤ
  pub total_allocs : ℤ
  pub goroutines : ℤ
  pub gc_count : ℤ

-- What the runtime has counted after runtime.GC, without a bound.
pub record MemStats : Type 0 where
  pub heap_alloc : ℕ
  pub total_alloc : ℕ
  pub num_goroutine : ℕ
  pub num_gc : ℕ

-- SnapshotRuntime: the counts as runtime.ReadMemStats has room for them.
unfoldable pub snapshot_runtime : MemStats → RuntimeSnapshot
snapshot_runtime ms = record {
  heap_alloc_bytes = ms.heap_alloc % two_64;
  total_allocs = ms.total_alloc % two_64;
  goroutines = ms.num_goroutine % two_64;
  gc_count = ms.num_gc % two_32;
}

-- Sub, whose receiver is the earlier snapshot
unfoldable pub sub : RuntimeSnapshot → RuntimeSnapshot → RuntimeDiff
unfolding int64 int32 sub_64 sub_32
sub a b = record {
  heap_alloc_bytes = int64 (sub_64 b.heap_alloc_bytes a.heap_alloc_bytes);
  total_allocs = int64 (sub_64 b.total_allocs a.total_allocs);
  goroutines = int64 (sub_64 b.goroutines a.goroutines);
  gc_count = int32 (sub_32 b.gc_count a.gc_count);
}
