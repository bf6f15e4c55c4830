-- ===== src/Driver/Ops.antt =====
-- runOps of tests/stress/driver/main.go: a goroutine that puts the numbers of the operations on a
-- channel of 1024, and workers that take them off and call op. Every access to the channel, and the
-- beginning and the end of a call, is a step, and the steps interleave in any order.
pub mod Ordered
pub mod Ends
use hallmaster_proxy.Base.{ℕ, suc, ◌+◌, ◌<◌, Bool, true, false, List, [], ◌∷◌, ◌++◌, length, ◌≡◌}

abbrev pub capacity : ℕ
capacity = 1024

-- The producer's next number and whether it still runs; the channel; whether the context is done;
-- the workers that wait for a number and those that have returned; the numbers that were received
-- from the channel, in that order; those of them that a worker holds whose call of op has not begun;
-- the calls that run, and all that have begun, in the order in which they began.
pub record Pool : Type 0 where
  pub next : ℕ
  pub producing : Bool
  pub channel : List ℕ
  pub cancelled : Bool
  pub idle : ℕ
  pub left : ℕ
  pub received : List ℕ
  pub held : List ℕ
  pub running : List ℕ
  pub called : List ℕ

abbrev pub begin : ℕ → Pool
begin workers = record {
  next = 0;
  producing = true;
  channel = [];
  cancelled = false;
  idle = workers;
  left = 0;
  received = [];
  held = [];
  running = [];
  called = [];
}

-- A tick of the pace only delays `send`. Where the context is done and the channel has room, select
-- takes either.
pub data Step (target : ℕ) (s u : Pool) : Type 0 where
  -- the time cap, or a signal
  cancel : s.cancelled ≡ false → u ≡ record s { cancelled = true } → Step target s u
  send :
      s.producing ≡ true
      → s.next < target
      → length s.channel < capacity
      → u ≡ record s { next = suc s.next; channel = s.channel ++ (s.next ∷ []) }
      → Step target s u
  -- the producer returns, and closes the channel
  give_up :
      s.producing ≡ true → s.cancelled ≡ true → u ≡ record s { producing = false } → Step target s u
  close :
      s.producing ≡ true → s.next ≡ target → u ≡ record s { producing = false } → Step target s u
  -- a worker receives a number
  take :
      (i k : ℕ) (rest : List ℕ)
      → s.idle ≡ suc k
      → s.channel ≡ i ∷ rest
      → u ≡ record s {
        idle = k;
        channel = rest;
        received = s.received ++ (i ∷ []);
        held = i ∷ s.held;
      }
      → Step target s u
  -- a worker begins the call of op with the number that it holds
  call :
      (i : ℕ) (before behind : List ℕ)
      → s.held ≡ before ++ (i ∷ behind)
      → u ≡ record s {
        held = before ++ behind;
        running = i ∷ s.running;
        called = s.called ++ (i ∷ []);
      }
      → Step target s u
  -- a call of op returns
  return :
      (i : ℕ) (before behind : List ℕ)
      → s.running ≡ before ++ (i ∷ behind)
      → u ≡ record s { running = before ++ behind; idle = suc s.idle }
      → Step target s u
  -- a worker finds the channel closed and empty
  leave :
      (k : ℕ)
      → s.producing ≡ false
      → s.channel ≡ []
      → s.idle ≡ suc k
      → u ≡ record s { idle = k; left = suc s.left }
      → Step target s u

pub data Reach (target workers : ℕ) : Pool → Type 0 where
  start : Reach target workers (begin workers)
  later : {s u : Pool} → Reach target workers s → Step target s u → Reach target workers u
