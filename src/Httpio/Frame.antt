-- ===== src/Httpio/Frame.antt =====
-- Encode gives a response Content-Length framing and leaves its bytes alone.
use Prim.Native.String.{String}
use hallmaster_proxy.Base.{
  Option, List, [], ◌∷◌, none, some, pos, ◌≡◌, refl, arith, ap, ◌∙◌, length,
}
use hallmaster_proxy.Text.{Bytes, Unicode}
use hallmaster_proxy.Text.Decimal.{itoa, decimal_value, decimal_value-itoa}
use hallmaster_proxy.Http.{Body, Request, Response, rewound}
use hallmaster_proxy.Http.Fields.{Header, values, get, set, del, header_laws}
use hallmaster_proxy.Httpio.{encode}
use hallmaster_proxy.Httpio.Observe.{IsReadable}

-- How Encode frames a body of bytes `full`.
abbrev sized : Header → Bytes → Header
sized h full = set (del h "Transfer-Encoding") "Content-Length" (itoa (length full))

abbrev pub framed_header : Header → Bytes → Header
framed_header h [] = del (sized h []) "Content-Type"
framed_header h (b ∷ full) = sized h (b ∷ full)

pub encode_whole :
    (u : Unicode) (resp : Response) (full : Bytes)
    → IsReadable u resp
    → resp.body ≡ some (rewound full)
    → encode u resp ≡ (
      record resp {
        header = framed_header resp.header full;
        transfer_encoding = [];
        content_length = pos (length full);
      },
      none,
    )
unfolding encode
encode_whole u resp [] r b = ground arith
encode_whole u resp (c ∷ full) r b = ground arith

-- A header without the fields that Encode rewrites.
abbrev unframed : Header → Header
unframed h = del (del (del h "Transfer-Encoding") "Content-Length") "Content-Type"

framed_other :
    (h : Header) (full : Bytes) (key : String)
    → values (unframed (framed_header h full)) key ≡ values (unframed h) key
framed_other h [] key = simp header_laws (ground arith)
framed_other h (b ∷ full) key = simp header_laws (ground arith)

abbrev unless_empty : Bytes → List Bytes → List Bytes
unless_empty [] vs = []
unless_empty (b ∷ full) vs = vs

framed_type :
    (h : Header) (full : Bytes)
    → values (framed_header h full) "Content-Type" ≡ unless_empty full (values h "Content-Type")
framed_type h [] = simp header_laws
framed_type h (b ∷ full) = simp header_laws

framed_transfer :
    (h : Header) (full : Bytes) → values (framed_header h full) "Transfer-Encoding" ≡ []
framed_transfer h [] = simp header_laws
framed_transfer h (b ∷ full) = simp header_laws

framed_length :
    (h : Header) (full : Bytes) → get (framed_header h full) "Content-Length" ≡ itoa (length full)
framed_length h [] = simp header_laws
framed_length h (b ∷ full) = simp header_laws

-- What a reader of the response relies on.
pub record IsFramed (resp : Response) (full : Bytes) (framed : Response) : Type 0 where
  pub body : framed.body ≡ some (rewound full)
  pub length_field : decimal_value (get framed.header "Content-Length") ≡ length full
  pub content_length : framed.content_length ≡ pos (length full)
  pub not_chunked : values framed.header "Transfer-Encoding" ≡ []
  pub no_transfer_encoding : framed.transfer_encoding ≡ []
  pub content_type :
      values framed.header "Content-Type" ≡ unless_empty full (values resp.header "Content-Type")
  pub others :
      (key : String) → values (unframed framed.header) key ≡ values (unframed resp.header) key
  pub status_code : framed.status_code ≡ resp.status_code

-- Whose response it is, and the reader that it came with, have no say in the framing.
pub IsFramed-left :
    (resp : Response) (request : Option Request) (body : Option Body) (full : Bytes)
    (framed : Response)
    → IsFramed (record resp { request = request; body = body }) full framed
    → IsFramed resp full framed
IsFramed-left resp request body full framed h = record {
  body = h.body;
  length_field = h.length_field;
  content_length = h.content_length;
  not_chunked = h.not_chunked;
  no_transfer_encoding = h.no_transfer_encoding;
  content_type = h.content_type;
  others = h.others;
  status_code = h.status_code;
}

-- Encode of a textual response with a whole body succeeds, sends the same bytes, states their
-- number in Content-Length and in the response, drops the transfer encoding, drops Content-Type
-- exactly if there are no bytes, and keeps the status code and every other header field.
pub encode-IsFramed :
    (u : Unicode) (resp : Response) (full : Bytes)
    → IsReadable u resp
    → resp.body ≡ some (rewound full)
    → ((encode u resp).1 ≡ none) × IsFramed resp full (encode u resp).0
encode-IsFramed u resp full r b = rw (encode_whole u resp full r b) (
  refl,
  record {
    body = b;
    length_field =
        ap decimal_value (framed_length resp.header full) ∙ decimal_value-itoa (length full);
    content_length = refl;
    not_chunked = framed_transfer resp.header full;
    no_transfer_encoding = refl;
    content_type = framed_type resp.header full;
    others = framed_other resp.header full;
    status_code = refl;
  },
)
