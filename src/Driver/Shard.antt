-- ===== src/Driver/Shard.antt =====
-- The shard of tests/stress/driver/gateway.go: HELLO, IDENTIFY, READY, and then the events that the
-- driver has injected. encoding/json is a parameter; heartbeats and the cancellation are left out.
pub mod Delivered
use hallmaster_proxy.Base.{
  ℕ, Bool, true, false, ◌&&◌, List, [], ◌∷◌, ◌++◌, Option, none, some, ◌==◌, if◌then◌else◌, ℤ, pos,
  negsuc, length, drop,
}
use hallmaster_proxy.Text.{Bytes, codes, equal, has_prefix}
use hallmaster_proxy.Text.Decimal.{itoa}
use hallmaster_proxy.Text.Atoi.{atoi}

-- wsutil.ReadServerData: an error, or the payload of the next data frame
pub data Incoming : Type 0 where
  failed : Incoming
  message : Bytes → Incoming

-- gatewayFrame, as far as it is looked at, and the frame that the reader decodes
pub record Frame : Type 0 where
  pub op : ℤ
  pub t : Bytes

pub record Notice : Type 0 where
  pub t : Bytes
  pub nonce : Bytes

-- json.Unmarshal for the three targets; `none` is an error
pub record Json : Type 0 where
  pub hello : Bytes → Option ℤ
  pub frame : Bytes → Option Frame
  pub notice : Bytes → Option Notice

pub data Event : Type 0 where
  identify : Event
  close : Event
  -- connectGateway returns, without an error
  ready : Event
  on_event : ℤ → Event

abbrev pub nonce_prefix : Bytes
nonce_prefix = codes "stress-"

-- the nonce that dispatch gives operation `i`
unfoldable pub nonce_of : ℕ → Bytes
unfolding itoa
nonce_of i = nonce_prefix ++ itoa i

-- strings.CutPrefix
unfoldable pub cut_prefix : Bytes → Bytes → Option Bytes
unfolding has_prefix
cut_prefix s prefix = if has_prefix s prefix then some (drop (length prefix) s) else none

abbrev called : Option ℤ → List Event
called none = []
called (some n) = on_event n ∷ []

unfoldable pub number_in : Option Bytes → List Event
unfolding atoi
number_in none = []
number_in (some s) = called (atoi s)

-- One frame that the reader has decoded, with what it does on the later ones.
unfoldable pub noticed : Option Notice → List Event → List Event
unfolding equal cut_prefix number_in
noticed none later = []
noticed (some notice) later =
    if equal notice.t (codes "MESSAGE_CREATE")
    then number_in (cut_prefix notice.nonce nonce_prefix) ++ later
    else later

-- The reading goroutine; at the end of the list it waits.
unfoldable pub read_events : Json → List Incoming → List Event
unfolding noticed
read_events json [] = []
read_events json (failed ∷ rest) = []
read_events json (message m ∷ rest) = noticed (json.notice m) (read_events json rest)

abbrev is_zero : ℤ → Bool
is_zero (pos n) = n == 0
is_zero (negsuc n) = false

abbrev pub is_ready : Frame → Bool
is_ready f = is_zero f.op && equal f.t (codes "READY")

-- One frame before READY, with what comes of going on to wait, and of READY.
unfoldable pub awaited : Option Frame → List Event → List Event → List Event
unfolding equal
awaited none waiting done = close ∷ []
awaited (some f) waiting done = if is_ready f then ready ∷ done else waiting

unfoldable pub await_ready : Json → List Incoming → List Event
unfolding awaited read_events
await_ready json [] = []
await_ready json (failed ∷ rest) = close ∷ []
await_ready json (message m ∷ rest) =
    awaited (json.frame m) (await_ready json rest) (read_events json rest)

-- connectGateway on a connection that was dialled, where the write of IDENTIFY answers `written`.
abbrev identified : Option Bytes → List Event → List Event
identified (some e) rest = identify ∷ close ∷ []
identified none rest = identify ∷ rest

abbrev greeted : Option ℤ → List Event → List Event
greeted none rest = close ∷ []
greeted (some interval) rest = rest

unfoldable pub connect_gateway : Json → Option Bytes → List Incoming → List Event
unfolding await_ready
connect_gateway json written [] = []
connect_gateway json written (failed ∷ rest) = close ∷ []
connect_gateway json written (message m ∷ rest) =
    greeted (json.hello m) (identified written (await_ready json rest))
