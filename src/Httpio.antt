-- ===== src/Httpio.antt =====
-- proxy/internals/httpio: the decoded view of a response body, and the framing of a response.
-- The readers of compress/gzip, compress/zlib and brotli are a parameter.
pub mod Observe
pub mod Frame
pub mod Maps
use hallmaster_proxy.Base.{
  Bool, true, false, ◌||◌, List, [], ◌∷◌, Option, none, some, Result, ok, err, pos, if◌then◌else◌,
  length,
}
use hallmaster_proxy.Text.{Bytes, codes, Unicode, equal, contains, to_lower}
use hallmaster_proxy.Text.Decimal.{itoa}
use hallmaster_proxy.Http.{Body, Response, ReadError, rewound, read_all}
use hallmaster_proxy.Http.Fields.{get, set, del}

abbrev pub binary_content_types : List Bytes
binary_content_types =
    codes "image/"
    ∷ codes "video/"
    ∷ codes "audio/"
    ∷ codes "application/octet-stream"
    ∷ codes "application/zip"
    ∷ codes "font/"
    ∷ []

contains_any : Bytes → List Bytes → Bool
contains_any ct [] = false
contains_any ct (t ∷ rest) = if contains ct t then true else contains_any ct rest

unfoldable pub is_binary : Unicode → Bytes → Bool
unfolding contains_any contains to_lower
is_binary u content_type = contains_any (to_lower u content_type) binary_content_types

pub data DecodeError : Type 0 where
  read : ReadError → DecodeError
  bad_header : DecodeError
  corrupt : ReadError → DecodeError

-- gzip.NewReader and zlib.NewReader read a header and may refuse it; brotli.NewReader does not.
pub record Codecs : Type 0 where
  pub gzip_reader : Bytes → Option Body
  pub zlib_reader : Bytes → Option Body
  pub brotli_reader : Bytes → Body

abbrev decompress : Option Body → Result DecodeError (Option Bytes)
decompress none = err bad_header
decompress (some reader) = elim (read_all reader).1 [ ok b ↦ ok (some b) | err e ↦ err (corrupt e) ]

-- The switch on Content-Encoding.
pub decode_bytes : Codecs → Bytes → Bytes → Result DecodeError (Option Bytes)
unfolding read_all
decode_bytes c encoding full =
    if equal encoding (codes "gzip")
    then decompress (c.gzip_reader full)
    else if equal encoding (codes "deflate")
    then decompress (c.zlib_reader full)
    else if equal encoding (codes "br")
    then decompress (some (c.brotli_reader full))
    else ok (some full)

decode_full : Codecs → Bytes → Bytes → Result DecodeError (Option Bytes)
unfolding decode_bytes
decode_full c encoding [] = ok none
decode_full c encoding (b ∷ bs) = decode_bytes c encoding (b ∷ bs)

-- DecodeBody behind its two first guards, on what io.ReadAll left and returned.
decode_read :
    Codecs → Response → Body × Result ReadError Bytes → Response × Result DecodeError (Option Bytes)
unfolding decode_full
decode_read c resp (left, err e) = (record resp { body = some left }, err (read e))
decode_read c resp (left, ok full) = (
  record resp { body = some (rewound full) },
  decode_full c (get resp.header "Content-Encoding") full,
)

decode_present :
    Unicode → Codecs → Response → Option Body → Response × Result DecodeError (Option Bytes)
unfolding is_binary decode_read read_all
decode_present u c resp none = (resp, ok none)
decode_present u c resp (some body) =
    if is_binary u (get resp.header "Content-Type")
    then (resp, ok none)
    else decode_read c resp (read_all body)

abbrev is_none {ℓ} : {A : Type ℓ} → Option A → Bool
is_none none = true
is_none (some a) = false

-- DecodeBody: the response that is left, and the readable body, nil being `none`. The pointer is
-- not nil.
unfoldable pub decode_body :
    Unicode → Codecs → Response → Response × Result DecodeError (Option Bytes)
unfolding decode_present
decode_body u c resp =
    if is_none resp.request then (resp, ok none) else decode_present u c resp resp.body

pub encode_read : Response → Body × Result ReadError Bytes → Response × Option ReadError
unfolding set del itoa
encode_read resp (left, err e) = (record resp { body = some left }, some e)
encode_read resp (left, ok full) =
    let sized = set (del resp.header "Transfer-Encoding") "Content-Length" (itoa (length full)) in
    (
      record resp {
        header = elim full [ [] ↦ del sized "Content-Type" | _ ∷ _ ↦ sized ];
        transfer_encoding = [];
        body = some (rewound full);
        content_length = pos (length full);
      },
      none,
    )

encode_present : Unicode → Response → Option Body → Response × Option ReadError
unfolding is_binary encode_read read_all
encode_present u resp none = (resp, none)
encode_present u resp (some body) =
    if is_binary u (get resp.header "Content-Type")
    then (resp, none)
    else encode_read resp (read_all body)

-- Encode: the response that is left, and the error, nil being `none`. The pointer is not nil.
unfoldable pub encode : Unicode → Response → Response × Option ReadError
unfolding encode_present
encode u resp = if is_none resp.request then (resp, none) else encode_present u resp resp.body
