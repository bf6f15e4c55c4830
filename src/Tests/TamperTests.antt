-- ===== src/Tests/TamperTests.antt =====
-- The Logging tamperer and its previews.
use hallmaster_proxy.Base.{
  ℕ, zero, suc, ◌≤◌, ◌+◌, ◌*◌, true, false, [], ◌∷◌, some, ◌≡◌, refl, ap, arith, length,
}
use hallmaster_proxy.Text.{Bytes, codes}
use hallmaster_proxy.Http.{Body, Request, rewound}
use hallmaster_proxy.Tamper.{passed}
use hallmaster_proxy.Tamper.Preview.{preview, payload_preview_limit, marker}
use hallmaster_proxy.Tamper.Preview.Runes.{
  IsRunes, nil, rune, IsTruncated, preview_long, length-preview-le,
}
use hallmaster_proxy.Tamper.Logging.{logging}
use hallmaster_proxy.Tamper.Logging.Private.{with_body_of, logging_private, logging_request_broken}
use hallmaster_proxy.Tamper.Latency.{kind_request, kind_response, new_latency_tamperer}
use hallmaster_proxy.Tamper.Latency.Measured.{record_all, record_all-take}
use hallmaster_proxy.Tamper.PassThrough.{IsPassThrough, logging-IsPassThrough}
use hallmaster_proxy.Tests.Fixtures.{users_request, users_response}

-- `n` letters.
letters : ℕ → Bytes
letters zero = []
letters (suc n) = b'a' ∷ letters n

letters-IsRunes : (n : ℕ) → IsRunes (letters n)
unfolding letters
letters-IsRunes zero = nil refl
letters-IsRunes (suc n) = rune b'a' [] (letters n) refl refl tt (omega arith) (letters-IsRunes n)

length-letters : (n : ℕ) → length (letters n) ≡ n
unfolding letters
length-letters zero = refl
length-letters (suc n) = ap suc (length-letters n)

preview_long_test : IsTruncated payload_preview_limit (letters 9000) (preview (letters 9000))
preview_long_test =
    preview_long (letters 9000) (letters-IsRunes 9000) (omega (arith, length-letters 9000))

length-preview-le_test : length (preview (letters 9000)) ≤ payload_preview_limit + length marker
length-preview-le_test = length-preview-le (letters 9000)

logging_private_example :
    (((logging false).request (with_body_of users_request (codes "abc")) []).0
      ≡ ((logging false).request (with_body_of users_request (codes "xyz")) []).0)
    × (((logging false).response users_request users_response (some (codes "abc")) []).0
        ≡ ((logging false).response users_request users_response (some (codes "xyz")) []).0)
    × (((logging false).ws_incoming (codes "abc") []).0
        ≡ ((logging false).ws_incoming (codes "xyz") []).0)
    × (((logging false).ws_outgoing (codes "abc") []).0
        ≡ ((logging false).ws_outgoing (codes "xyz") []).0)
logging_private_example =
    logging_private users_request users_response (codes "abc") (codes "xyz") [] refl

abbrev cut_upload : Body
cut_upload = record { bytes = codes "half a"; broken = true; again = true }

abbrev cut_request : Request
cut_request = record users_request { body = some cut_upload }

logging_request_broken_test :
    ((logging true).request cut_request []).1
    ≡ passed (record cut_request { body = some (rewound []) })
logging_request_broken_test = logging_request_broken true cut_request cut_upload [] refl refl

logging-IsPassThrough_test : IsPassThrough (logging true)
logging-IsPassThrough_test = logging-IsPassThrough true

record_all-take_test :
    record_all (new_latency_tamperer 1 (λ i. i * 10)) ((kind_request, 3) ∷ (kind_response, 5) ∷ [])
    ≡ record {
      samples = record { kind = kind_request; at = 0; bytes = 3 } ∷ [];
      capacity = 1;
      dropped = 1;
      clock = λ i. i * 10;
    }
record_all-take_test = record_all-take 1 (λ i. i * 10) ((kind_request, 3) ∷ (kind_response, 5) ∷ [])
