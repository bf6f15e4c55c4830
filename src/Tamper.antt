-- ===== src/Tamper.antt =====
-- proxy/internals/tamper/tamper.go: the interface to observe or rewrite traffic, and the no-op.
-- A tamperer keeps a state of type S of its own, which each call may change.
pub mod Preview
pub mod Logging
pub mod PassThrough
pub mod Latency
use hallmaster_proxy.Base.{Option, none, some, Result, ok, err, map}
use hallmaster_proxy.Text.{Bytes}
use hallmaster_proxy.Http.{Request, Response}

-- The text of a Go error.
abbrev pub TamperError : Type 0
TamperError = Bytes

-- A call on an object behind a pointer: the object passed in as the call leaves it, and the object
-- returned or the error.
pub record Tampered (A : Type 0) : Type 0 where
  pub argument : A
  pub result : Result TamperError A

-- The object is left alone and returned.
abbrev pub passed : {A : Type 0} → A → Tampered A
passed a = record { argument = a; result = ok a }

pub record Tamperer (S : Type 0) : Type 0 where
  pub request : Request → S → S × Tampered Request
  pub response : Request → Response → Option Bytes → S → S × Tampered Response
  pub ws_incoming : Bytes → S → S × Result TamperError Bytes
  pub ws_outgoing : Bytes → S → S × Result TamperError Bytes

-- tamper.Nop
unfoldable pub nop : {S : Type 0} → Tamperer S
nop = record {
  request = λ req s. (s, passed req);
  response = λ req resp decoded_body s. (s, passed resp);
  ws_incoming = λ payload s. (s, ok payload);
  ws_outgoing = λ payload s. (s, ok payload);
}
