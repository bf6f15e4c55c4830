-- ===== src/Tests/HttpioTests.antt =====
-- Response bodies: decoding for observers, and framing.
use hallmaster_proxy.Base.{Bool-cases, inl, inr, subst, true, [], ◌∷◌, none, some, ◌≡◌, refl}
use text.Mathlib.Text.{◌==◌ as str_eq}
use text.Mathlib.TextEquality.{eq_iff}
use hallmaster_proxy.Text.{codes}
use hallmaster_proxy.Http.{Body, Response, rewound}
use hallmaster_proxy.Http.Fields.{get}
use hallmaster_proxy.Httpio.{is_binary, decode_body, encode}
use hallmaster_proxy.Httpio.Observe.{
  IsReadable, rewound-IsWhole, decode_body_left, nil_on_error, decode_body-IsShown, gzip,
}
use hallmaster_proxy.Httpio.Frame.{IsFramed, encode-IsFramed}
use hallmaster_proxy.Tests.Fixtures.{
  ascii_only, toy_codecs, users_request, users_body, users_response,
}
use hallmaster_proxy.Httpio.Maps.{Same, view, with_header, encode-Same, encode_twice}
use hallmaster_proxy.Http.Fields.{Header, values}

users_IsReadable : IsReadable ascii_only users_response
unfolding is_binary get
users_IsReadable = record { request = users_request; answers = refl; textual = refl }

decode_body_left_test : (decode_body ascii_only toy_codecs users_response).0 ≡ users_response
decode_body_left_test =
    decode_body_left ascii_only toy_codecs users_response
      (λ body. rewound-IsWhole users_response users_body body refl)

abbrev cut_body : Body
cut_body = record { bytes = codes "{\"id"; broken = true; again = true }

abbrev cut_response : Response
cut_response = record users_response { body = some cut_body }

cut_IsReadable : IsReadable ascii_only cut_response
unfolding is_binary get
cut_IsReadable = record { request = users_request; answers = refl; textual = refl }

abbrev packed_response : Response
packed_response = record users_response {
  header = ("Content-Encoding", codes "gzip" ∷ []) ∷ [];
  body = some (rewound (codes "#ok"));
}

packed_IsReadable : IsReadable ascii_only packed_response
unfolding is_binary get
packed_IsReadable = record { request = users_request; answers = refl; textual = refl }

decode_body-IsShown_test :
    nil_on_error (decode_body ascii_only toy_codecs packed_response).1 ≡ some (codes "ok")
unfolding get
decode_body-IsShown_test =
    decode_body-IsShown ascii_only toy_codecs packed_response (codes "#ok") (some (codes "ok"))
      packed_IsReadable refl (inl (gzip, refl, refl))

encode-IsFramed_example :
    ((encode ascii_only users_response).1 ≡ none)
    × IsFramed users_response users_body (encode ascii_only users_response).0
encode-IsFramed_example = encode-IsFramed ascii_only users_response users_body users_IsReadable refl

-- A response whose Content-Type is an image is left to stream.
image_streams :
    let image = record users_response { header = ("Content-Type", codes "Image/PNG" ∷ []) ∷ [] } in
    encode ascii_only image ≡ (image, none)
unfolding encode get
image_streams = refl

-- The same fields in another order, and one that is hidden behind another.
abbrev turned : Header
turned =
    ("Transfer-Encoding", codes "chunked" ∷ [])
    ∷ ("Content-Type", codes "application/json" ∷ [])
    ∷ ("Transfer-Encoding", codes "gzip" ∷ [])
    ∷ []

turned-Same : Same turned users_response.header
unfolding values
turned-Same key = elim (Bool-cases (str_eq "Content-Type" key)) [
  | inl e ↦
      subst (λ k. values turned k ≡ values users_response.header k)
        ((eq_iff "Content-Type" key).0 e) refl
  | inr e ↦ elim (Bool-cases (str_eq "Transfer-Encoding" key)) [
    | inl f ↦ rw (e, f) refl
    | inr f ↦ rw (e, f) refl
  ]
]

encode-Same_test :
    (view (encode ascii_only (with_header users_response turned)).0
      ≡ view (encode ascii_only users_response).0)
    × ((encode ascii_only (with_header users_response turned)).1
        ≡ (encode ascii_only users_response).1)
encode-Same_test = encode-Same ascii_only users_response turned turned-Same

encode_twice_test :
    (view (encode ascii_only (encode ascii_only users_response).0).0
      ≡ view (encode ascii_only users_response).0)
    × ((encode ascii_only (encode ascii_only users_response).0).1 ≡ none)
encode_twice_test = encode_twice ascii_only users_response users_body users_IsReadable refl
