-- ===== src/Http.antt =====
-- The parts of net/http that the proxy reads and writes: headers, bodies, requests, responses.
pub mod Fields
use hallmaster_proxy.Base.{
  ℕ, Bool, true, false, List, [], ◌∷◌, Option, none, some, Result, ok, err, ℤ, if◌then◌else◌,
}
use hallmaster_proxy.Text.{Bytes}
use hallmaster_proxy.Http.Fields.{Header}

-- A reader: the bytes that are left, whether the stream breaks off behind them, and whether a reader
-- that has failed fails again or is at its end then. One at its end is there for good.
pub record Body : Type 0 where
  pub bytes : Bytes
  pub broken : Bool
  pub again : Bool

-- io.NopCloser(bytes.NewReader(b))
abbrev pub rewound : Bytes → Body
rewound b = record { bytes = b; broken = false; again = false }

pub data ReadError : Type 0 where
  unexpected_eof : ReadError

-- A reader whose stream broke off.
abbrev pub read_failed : Body → Body
read_failed body = record { bytes = []; broken = body.again; again = body.again }

-- io.ReadAll: the reader that is left, and the bytes or the error
unfoldable pub read_all : Body → Body × Result ReadError Bytes
read_all body =
    if body.broken
    then (read_failed body, err unexpected_eof)
    else (record body { bytes = [] }, ok body.bytes)

pub record Request : Type 0 where
  pub method : Bytes
  pub host : Bytes
  pub url : Bytes
  pub raw_query : Bytes
  pub proto : Bytes
  pub header : Header
  pub content_length : ℤ
  pub body : Option Body

pub record Response : Type 0 where
  pub request : Option Request
  pub status : Bytes
  pub status_code : ℕ
  pub header : Header
  pub transfer_encoding : List Bytes
  pub content_length : ℤ
  pub body : Option Body
