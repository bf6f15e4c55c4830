-- ===== src/Driver/Recorder.antt =====
-- The recorder of tests/stress/driver/main.go: one slot per operation, in a gateway scenario written
-- as calls of op and arrivals interleave. Times are nanoseconds since the start, 0 for never.
pub mod Arrivals
use hallmaster_proxy.Base.{
  ℕ, zero, suc, ◌+◌, Bool, true, false, ◌||◌, List, [], ◌∷◌, Option, none, some, ◌==◌,
  if◌then◌else◌, ℤ, pos, negsuc, sub_ℕ,
}
use hallmaster_proxy.Text.{Bytes}

pub data Mode : Type 0 where
  mode_gateway : Mode
  mode_rest : Mode

pub record Recorder : Type 0 where
  pub sent : List ℕ
  pub direct : List ℕ
  pub proxy : List ℕ
  pub errs : List (Option Bytes)
  pub op_errors : ℕ

abbrev pub Slots : Type 0
Slots = List ℕ

pub data Via : Type 0 where
  directly : Via
  proxied : Via

-- op stamps its time of sending, or fails; connectGateway calls onEvent for the number in a nonce,
-- which may be any integer.
pub data Event : Type 0 where
  sends : ℕ → ℕ → Event
  fails : ℕ → Bytes → Event
  arrives : Via → ℤ → ℕ → Event

unfoldable pub replicate : {A : Type 0} → ℕ → A → List A
replicate zero a = []
replicate (suc n) a = a ∷ replicate n a

-- slot[i] = v, for an index in range
unfoldable pub set : {A : Type 0} → List A → ℕ → A → List A
set [] i v = []
set (x ∷ slots) zero v = v ∷ slots
set (x ∷ slots) (suc i) v = x ∷ set slots i v

-- slot[i].Load(), for an index in range
unfoldable pub load : Slots → ℕ → ℕ
load [] i = 0
load (x ∷ slots) zero = x
load (x ∷ slots) (suc i) = load slots i

-- r.errs[i].Load(), for an index in range
unfoldable pub error_at : List (Option Bytes) → ℕ → Option Bytes
error_at [] i = none
error_at (e ∷ errs) zero = e
error_at (e ∷ errs) (suc i) = error_at errs i

unfoldable pub new_recorder : ℕ → Recorder
unfolding replicate
new_recorder n = record {
  sent = replicate n 0;
  direct = replicate n 0;
  proxy = replicate n 0;
  errs = replicate n none;
  op_errors = 0;
}

-- CompareAndSwap(0, v)
unfoldable pub swap : Slots → ℕ → ℕ → Slots
swap [] i v = []
swap (x ∷ slots) zero v = (if x == 0 then v else x) ∷ slots
swap (x ∷ slots) (suc i) v = x ∷ swap slots i v

unfoldable pub store : Slots → ℤ → ℕ → Slots
unfolding swap
store slots (pos i) v = swap slots i v
store slots (negsuc i) v = slots

unfoldable pub fail : Recorder → ℕ → Bytes → Recorder
unfolding set
fail r i e = record r { errs = set r.errs i (some e); op_errors = r.op_errors + 1 }

unfoldable pub happens : Recorder → Event → Recorder
unfolding set fail store
happens r (sends i t) = record r { sent = set r.sent i t }
happens r (fails i e) = fail r i e
happens r (arrives directly n t) = record r { direct = store r.direct n t }
happens r (arrives proxied n t) = record r { proxy = store r.proxy n t }

unfoldable pub happen : Recorder → List Event → Recorder
unfolding happens
happen r [] = r
happen r (e ∷ events) = happen (happens r e) events

abbrev pub slots_of : Via → Recorder → Slots
slots_of directly r = r.direct
slots_of proxied r = r.proxy

abbrev pub since : ℕ → ℕ → ℤ
since sent v = if v == 0 then pos 0 else sub_ℕ v sent

-- Gateway slots hold arrival times, REST slots round-trips.
abbrev pub measured : Mode → ℕ → ℕ → ℤ
measured mode_gateway sent v = since sent v
measured mode_rest sent v = pos v

unfoldable pub latency : Mode → Recorder → Via → ℕ → ℤ
unfolding load
latency mode r via i = measured mode (load r.sent i) (load (slots_of via r) i)
