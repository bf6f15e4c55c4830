-- ===== src/Tamper/Logging.antt =====
-- The Logging tamperer, proxy/internals/tamper/logging.go. Its state is the records logged so far.
pub mod Private
use Prim.Native.String.{String}
use hallmaster_proxy.Base.{
  ℕ, Bool, true, false, List, [], ◌∷◌, ◌++◌, Option, none, some, Result, ok, err, map, ◌==◌,
  if◌then◌else◌, length,
}
use hallmaster_proxy.Text.{Bytes, codes}
use hallmaster_proxy.Http.{Body, Request, Response, ReadError, rewound, read_all}
use hallmaster_proxy.Tamper.{Tamperer, Tampered, passed}
use hallmaster_proxy.Tamper.Preview.{preview}

pub data Attr : Type 0 where
  text : Bytes → Attr
  number : ℕ → Attr

-- One call of Logger.Info.
pub record LogRecord : Type 0 where
  pub message : String
  pub attrs : List (String × Attr)

abbrev pub Log : Type 0
Log = List LogRecord

abbrev pub empty_text : Bytes
empty_text = codes "<empty>"

abbrev body_text : Bytes → Bytes
body_text [] = empty_text
body_text (b ∷ bs) = b ∷ bs

-- What readAndRewindBody makes of io.ReadAll: the new body, the text and the byte count.
read_back : Result ReadError Bytes → Body × Bytes × ℕ
read_back (err e) = (rewound [], codes "<read-error>", 0)
read_back (ok b) = (rewound b, body_text b, length b)

pub rewind : Option Body → Option Body × Bytes × ℕ
unfolding read_back read_all
rewind none = (none, empty_text, 0)
rewind (some body) =
    let (left, shown, size) = read_back (read_all body).1 in (some left, shown, size)

-- readAndRewindBody
unfoldable pub read_and_rewind_body : Request → Request × Bytes × ℕ
unfolding rewind
read_and_rewind_body req =
    let (body, shown, size) = rewind req.body in (record req { body = body }, shown, size)

-- strings.ReplaceAll(s, "\n", " ")
abbrev pub newlines_to_spaces : Bytes → Bytes
newlines_to_spaces s = map (λ c. if c == b'\n' then b' ' else c) s

abbrev pub response_text : Option Bytes → Bytes
response_text none = empty_text
response_text (some b) = preview (newlines_to_spaces b)

abbrev pub decoded_length : Option Bytes → ℕ
decoded_length none = 0
decoded_length (some b) = length b

-- append(attrs, key, value) if LogBodies is set
abbrev with_body : Bool → List (String × Attr) → String → Bytes → List (String × Attr)
with_body log_bodies attrs key value = if log_bodies then attrs ++ (key, text value) ∷ [] else attrs

abbrev info : String → List (String × Attr) → Log → Log
info message attrs log = log ++ record { message = message; attrs = attrs } ∷ []

pub log_request : Bool → Request → Log → Log × Tampered Request
unfolding read_and_rewind_body preview
log_request log_bodies req log =
    let (req', body, body_len) = read_and_rewind_body req in
    let attrs =
      ("method", text req'.method)
      ∷ ("url", text req'.url)
      ∷ ("proto", text req'.proto)
      ∷ ("body_len", number body_len)
      ∷ [] in
    (info "tamper http req" (with_body log_bodies attrs "body" (preview body)) log, passed req')

pub log_response : Bool → Request → Response → Option Bytes → Log → Log × Tampered Response
unfolding preview
log_response log_bodies req resp decoded_body log =
    let attrs =
      ("method", text req.method)
      ∷ ("url", text req.url)
      ∷ ("status", text resp.status)
      ∷ ("body_len", number (decoded_length decoded_body))
      ∷ [] in
    (
      info "tamper http resp" (with_body log_bodies attrs "body" (response_text decoded_body)) log,
      passed resp,
    )

pub log_frame : String → Bool → Bytes → Log → Log × Result Bytes Bytes
unfolding preview
log_frame message log_bodies payload log =
    let attrs = ("len", number (length payload)) ∷ [] in
    (info message (with_body log_bodies attrs "payload" (preview payload)) log, ok payload)

-- Logging{Logger: logger, LogBodies: log_bodies}
unfoldable pub logging : Bool → Tamperer Log
unfolding log_request log_response log_frame
logging log_bodies = record {
  request = log_request log_bodies;
  response = log_response log_bodies;
  ws_incoming = log_frame "tamper ws<-discord" log_bodies;
  ws_outgoing = log_frame "tamper ws->discord" log_bodies;
}
