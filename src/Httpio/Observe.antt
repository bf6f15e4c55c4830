-- ===== src/Httpio/Observe.antt =====
-- DecodeBody observes: what it leaves, what it returns, and what it makes of a broken body.
use hallmaster_proxy.Base.{
  true, false, [], ◌∷◌, Option, none, some, ok, err, ◌≡◌, ◌⊎◌, inl, inr, refl, sym, ap, ◌∙◌, Result,
  if◌then◌else◌, arith,
}
use hallmaster_proxy.Text.{Bytes, codes, Unicode, equal}
use hallmaster_proxy.Http.{Body, Request, Response, unexpected_eof, rewound, read_failed, read_all}
use hallmaster_proxy.Http.Fields.{get}
use hallmaster_proxy.Httpio.{
  Codecs, DecodeError, is_binary, decompress, decode_bytes, decode_full, decode_present,
  decode_body, encode,
}

-- No read of the response's body fails.
abbrev pub IsWhole : Response → Type 0
IsWhole resp = (body : Body) → resp.body ≡ some body → (body.broken ≡ false) × (body.again ≡ false)

pub rewound-IsWhole :
    (resp : Response) (full : Bytes) (body : Body)
    → resp.body ≡ some (rewound full)
    → resp.body ≡ some body
    → (body.broken ≡ false) × (body.again ≡ false)
rewound-IsWhole resp full body b e = ground arith

-- The response comes from the client's exchange with the upstream and is not a binary payload.
pub record IsReadable (u : Unicode) (resp : Response) : Type 0 where
  pub request : Request
  pub answers : resp.request ≡ some request
  pub textual : is_binary u (get resp.header "Content-Type") ≡ false

decode_present-left :
    (u : Unicode) (c : Codecs) (resp : Response) (body : Option Body)
    → resp.body ≡ body
    → IsWhole resp
    → (decode_present u c resp body).0 ≡ resp
unfolding decode_present
decode_present-left u c resp none e whole = refl
decode_present-left u c resp (some body) e whole = ground (arith, whole body e)

-- DecodeBody leaves a response whose body does not break off as it was: headers, framing and
-- bytes, whatever the encoding and whether decoding succeeds.
pub decode_body_left :
    (u : Unicode) (c : Codecs) (resp : Response) → IsWhole resp → (decode_body u c resp).0 ≡ resp
unfolding decode_body
decode_body_left u c resp whole = ground (arith, decode_present-left u c resp resp.body refl whole)

pub decode_body_broken :
    (u : Unicode) (c : Codecs) (resp : Response) (body : Body)
    → IsReadable u resp
    → resp.body ≡ some body
    → body.broken ≡ true
    → decode_body u c resp
      ≡ (record resp { body = some (read_failed body) }, err (DecodeError.read unexpected_eof))
unfolding decode_body
decode_body_broken u c resp body r e broken = ground arith

pub encode_broken :
    (u : Unicode) (resp : Response) (body : Body)
    → IsReadable u resp
    → resp.body ≡ some body
    → body.broken ≡ true
    → encode u resp ≡ (record resp { body = some (read_failed body) }, some unexpected_eof)
unfolding encode
encode_broken u resp body r e broken = ground arith

-- A textual body that breaks off, with a reader that then fails again, is an error of DecodeBody and
-- of the Encode that follows.
pub encode-decode_body_broken :
    (u : Unicode) (c : Codecs) (resp : Response) (body : Body)
    → IsReadable u resp
    → resp.body ≡ some body
    → body.broken ≡ true
    → body.again ≡ true
    → ((decode_body u c resp).1 ≡ err (DecodeError.read unexpected_eof))
      × ((encode u (decode_body u c resp).0).1 ≡ some unexpected_eof)
encode-decode_body_broken u c resp body r e broken again =
    rw (decode_body_broken u c resp body r e broken) (
      refl,
      rw
          (encode_broken u (record resp { body = some (read_failed body) }) (read_failed body)
            (record { request = r.request; answers = r.answers; textual = r.textual }) refl again)
          refl,
    )

-- The encodings that DecodeBody knows.
pub data Encoding : Type 0 where
  gzip deflate br : Encoding

abbrev pub encoding_name : Encoding → Bytes
encoding_name gzip = codes "gzip"
encoding_name deflate = codes "deflate"
encoding_name br = codes "br"

abbrev pub reader_of : Codecs → Encoding → Bytes → Option Body
reader_of c gzip b = c.gzip_reader b
reader_of c deflate b = c.zlib_reader b
reader_of c br b = some (c.brotli_reader b)

-- What is read from a reader to its end, nil where it refuses its input or fails on the way.
abbrev pub text_of : Option Body → Option Bytes
text_of none = none
text_of (some body) = if body.broken then none else some body.bytes

-- What an observer is shown of a textual body: nil if there are no bytes; what the reader of gzip,
-- deflate or br makes of them, where the encoding is one of these; and else the bytes themselves.
abbrev pub IsShown : Codecs → Bytes → Bytes → Option Bytes → Type 0
IsShown c encoding [] shown = shown ≡ none
IsShown c encoding (b ∷ full) shown =
    ((e : Encoding) × (encoding ≡ encoding_name e) × (shown ≡ text_of (reader_of c e (b ∷ full))))
    ⊎ (((e : Encoding) → equal encoding (encoding_name e) ≡ false) × (shown ≡ some (b ∷ full)))

abbrev pub nil_on_error : Result DecodeError (Option Bytes) → Option Bytes
nil_on_error (ok decoded) = decoded
nil_on_error (err e) = none

decompress-text_of : (reader : Option Body) → nil_on_error (decompress reader) ≡ text_of reader
unfolding read_all
decompress-text_of none = refl
decompress-text_of (some body) = ground arith

decode_bytes-reader :
    (c : Codecs) (e : Encoding) (full : Bytes)
    → nil_on_error (decode_bytes c (encoding_name e) full) ≡ text_of (reader_of c e full)
unfolding decode_bytes equal
decode_bytes-reader c gzip full = decompress-text_of (c.gzip_reader full)
decode_bytes-reader c deflate full = decompress-text_of (c.zlib_reader full)
decode_bytes-reader c br full = decompress-text_of (some (c.brotli_reader full))

decode_full-IsShown :
    (c : Codecs) (encoding full : Bytes) (shown : Option Bytes)
    → IsShown c encoding full shown
    → nil_on_error (decode_full c encoding full) ≡ shown
unfolding decode_full decode_bytes
decode_full-IsShown c encoding [] shown h = sym h
decode_full-IsShown c encoding (b ∷ full) shown (inl (e, named, same)) =
    ap (λ (name : Bytes). nil_on_error (decode_bytes c name (b ∷ full))) named
    ∙ decode_bytes-reader c e (b ∷ full)
    ∙ sym same
decode_full-IsShown c encoding (b ∷ full) shown (inr (other, same)) =
    rw (other gzip, other deflate, other br, same) refl

-- What DecodeBody returns for a textual response with a whole body, nil where it returns an error,
-- is what an observer is to be shown.
pub decode_body-IsShown :
    (u : Unicode) (c : Codecs) (resp : Response) (full : Bytes) (shown : Option Bytes)
    → IsReadable u resp
    → resp.body ≡ some (rewound full)
    → IsShown c (get resp.header "Content-Encoding") full shown
    → nil_on_error (decode_body u c resp).1 ≡ shown
unfolding decode_body
decode_body-IsShown u c resp full shown r b h =
    rw (r.answers, b, r.textual)
      (decode_full-IsShown c (get resp.header "Content-Encoding") full shown h)
