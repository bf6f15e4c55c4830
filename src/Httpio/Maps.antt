-- ===== src/Httpio/Maps.antt =====
-- Go's http.Header is a map, which has no order: DecodeBody and Encode as functions of that map.
use Prim.Native.String.{String}
use mathlib.Core.Quot
use mathlib.Core.Quot.{Quot}
use hallmaster_proxy.Base.{
  ℕ, false, List, [], ◌∷◌, Option, none, some, Result, ok, err, ℤ, pos, ◌≡◌, refl, ap, arith,
  length, inl, inr, Bool-cases,
}
use hallmaster_proxy.Text.{Bytes, Unicode, contains, to_lower}
use hallmaster_proxy.Http.{Body, Request, Response, ReadError, rewound, read_all}
use hallmaster_proxy.Http.Fields.{Header, values, get, header_laws}
use hallmaster_proxy.Httpio.{is_binary, encode, encode_read, encode_present, is_none}
use hallmaster_proxy.Httpio.Observe.{IsReadable}
use hallmaster_proxy.Httpio.Frame.{framed_header, encode_whole}

-- Two lists of fields that are the same map.
abbrev pub Same : Header → Header → Type 0
Same h g = (key : String) → values h key ≡ values g key

abbrev pub Fields : Type 0
Fields = Quot Same

abbrev pub fields : Header → Fields
fields h = Quot.mk h

-- A response with its header as a map.
pub record View : Type 0 where
  pub request : Option Request
  pub status : Bytes
  pub status_code : ℕ
  pub header : Fields
  pub transfer_encoding : List Bytes
  pub content_length : ℤ
  pub body : Option Body

abbrev pub view : Response → View
view resp = record {
  request = resp.request;
  status = resp.status;
  status_code = resp.status_code;
  header = fields resp.header;
  transfer_encoding = resp.transfer_encoding;
  content_length = resp.content_length;
  body = resp.body;
}

get-Same : (h g : Header) (key : String) → Same h g → get h key ≡ get g key
unfolding get
get-Same h g key same = ground (arith, same key)

framed_header-Same :
    (h g : Header) (full : Bytes) → Same h g → Same (framed_header h full) (framed_header g full)
framed_header-Same h g [] same key = simp header_laws (ground (arith, same key))
framed_header-Same h g (b ∷ full) same key = simp header_laws (ground (arith, same key))

framed_header_twice :
    (h : Header) (full : Bytes)
    → Same (framed_header (framed_header h full) full) (framed_header h full)
framed_header_twice h [] key = simp header_laws (ground arith)
framed_header_twice h (b ∷ full) key = simp header_laws (ground arith)

abbrev pub with_header : Response → Header → Response
with_header resp h = record resp { header = h }

-- The same response, the same result, and the same map.
abbrev IsSeen : {A : Type 0} → Response × A → Response × A → Type 0
IsSeen (left, a) (right, b) = (view left ≡ view right) × (a ≡ b)

seen :
    {A : Type 0} (resp : Response) (h g : Header) (a : A)
    → Same h g
    → IsSeen (with_header resp h, a) (with_header resp g, a)
seen resp h g a same =
    (ap (λ (f : Fields). record (view resp) { header = f }) (Quot.sound same), refl)

module _ (u : Unicode) where
  encode_read-Same :
      (resp : Response) (h : Header) (r : Body × Result ReadError Bytes)
      → Same h resp.header
      → IsSeen (encode_read (with_header resp h) r) (encode_read resp r)
  unfolding encode_read
  encode_read-Same resp h (left, err e) same =
      seen (record resp { body = some left }) h resp.header (some e) same
  encode_read-Same resp h (left, ok []) same =
      seen
        (record resp { body = some (rewound []); transfer_encoding = []; content_length = pos 0 })
        (framed_header h []) (framed_header resp.header []) none
        (framed_header-Same h resp.header [] same)
  encode_read-Same resp h (left, ok (b ∷ full)) same =
      let framed = record resp {
        body = some (rewound (b ∷ full));
        transfer_encoding = [];
        content_length = pos (length (b ∷ full));
      } in
      seen framed (framed_header h (b ∷ full)) (framed_header resp.header (b ∷ full)) none
        (framed_header-Same h resp.header (b ∷ full) same)

  encode_present-Same :
      (resp : Response) (h : Header) (o : Option Body)
      → Same h resp.header
      → IsSeen (encode_present u (with_header resp h) o) (encode_present u resp o)
  unfolding encode_present
  encode_present-Same resp h none same = seen resp h resp.header none same
  encode_present-Same resp h (some body) same =
      rw (get-Same h resp.header "Content-Type" same)
        (elim (Bool-cases (is_binary u (get resp.header "Content-Type"))) [
          | inl e ↦ rw e (seen resp h resp.header none same)
          | inr e ↦ rw e (encode_read-Same resp h (read_all body) same)
        ])

  -- Encode sees the map alone: in whatever order the header's fields are listed, whatever the
  -- response, the error is the same and so is the response that is left, with its header as a map.
  pub encode-Same :
      (resp : Response) (h : Header)
      → Same h resp.header
      → (view (encode u (with_header resp h)).0 ≡ view (encode u resp).0)
        × ((encode u (with_header resp h)).1 ≡ (encode u resp).1)
  unfolding encode
  encode-Same resp h same = elim (Bool-cases (is_none resp.request)) [
    | inl e ↦ rw e (seen resp h resp.header none same)
    | inr e ↦ rw e (encode_present-Same resp h resp.body same)
  ]

  -- What encode_whole leaves.
  abbrev framed : Response → Bytes → Response
  framed resp full = record resp {
    header = framed_header resp.header full;
    transfer_encoding = [];
    content_length = pos (length full);
  }

  framed_textual :
      (h : Header) (full : Bytes)
      → is_binary u (get h "Content-Type") ≡ false
      → is_binary u (get (framed_header h full) "Content-Type") ≡ false
  unfolding is_binary contains to_lower
  framed_textual h [] textual = simp header_laws
  framed_textual h (b ∷ full) textual = simp header_laws textual

  -- Encode of what Encode has left of a textual response with a whole body succeeds and changes
  -- nothing, the header being a map.
  pub encode_twice :
      (resp : Response) (full : Bytes)
      → IsReadable u resp
      → resp.body ≡ some (rewound full)
      → (view (encode u (encode u resp).0).0 ≡ view (encode u resp).0)
        × ((encode u (encode u resp).0).1 ≡ none)
  encode_twice resp full r b =
      let left = framed resp full in
      let again : IsReadable u left = record {
        request = r.request;
        answers = r.answers;
        textual = framed_textual resp.header full r.textual;
      } in
      let h = framed_header resp.header full in
      rw (encode_whole u resp full r b, encode_whole u left full again b)
        (seen left (framed_header h full) h none (framed_header_twice resp.header full))
