-- ===== src/Tamper/Latency.antt =====
-- proxy/internals/internaltest/latency.go: the tamperer that measures.
pub mod Measured
pub mod Pairs
pub mod Percentiles
use hallmaster_proxy.Base.{
  ℕ, suc, ◌+◌, ◌-◌, Bool, true, false, List, [], ◌∷◌, ◌++◌, Option, none, some, ok, leb, length,
  if◌then◌else◌, ℤ, pos, negsuc,
}
use hallmaster_proxy.Text.{Bytes}
use hallmaster_proxy.Http.{Request}
use hallmaster_proxy.Tamper.{Tamperer, passed}

pub data Kind : Type 0 where
  kind_request : Kind
  kind_response : Kind
  kind_ws_incoming : Kind
  kind_ws_outgoing : Kind

pub record Sample : Type 0 where
  pub kind : Kind
  pub at : ℕ
  pub bytes : ℕ

-- LatencyTamperer. `clock i` is what the clock shows, counted from the start, in the i-th call of a
-- hook from 0.
pub record LatencyTamperer : Type 0 where
  pub samples : List Sample
  pub capacity : ℕ
  pub dropped : ℕ
  pub clock : ℕ → ℕ

abbrev pub new_latency_tamperer : ℕ → (ℕ → ℕ) → LatencyTamperer
new_latency_tamperer capacity clock = record {
  samples = [];
  capacity = capacity;
  dropped = 0;
  clock = clock;
}

-- record, one of whose two branches runs in each call
unfoldable pub record_sample : Kind → ℕ → LatencyTamperer → LatencyTamperer
record_sample kind n l =
    if leb l.capacity (length l.samples) then record l { dropped = l.dropped + 1 } else record l {
      samples =
          l.samples
          ++ (record { kind = kind; at = l.clock (length l.samples + l.dropped); bytes = n } ∷ []);
    }

abbrev pub positive_length : ℤ → ℕ
positive_length (pos n) = n
positive_length (negsuc n) = 0

abbrev pub decoded_length : Option Bytes → ℕ
decoded_length none = 0
decoded_length (some decoded) = length decoded

unfoldable pub latency : Tamperer LatencyTamperer
unfolding record_sample
latency = record {
  request =
      λ req l. (record_sample kind_request (positive_length req.content_length) l, passed req);
  response = λ req resp decoded_body l.
      (record_sample kind_response (decoded_length decoded_body) l, passed resp);
  ws_incoming = λ payload l. (record_sample kind_ws_incoming (length payload) l, ok payload);
  ws_outgoing = λ payload l. (record_sample kind_ws_outgoing (length payload) l, ok payload);
}
