-- ===== src/Handlers/Https/Observed.antt =====
-- What the tamperer is shown of a response, compressed or not, and what the client is sent of it.
use hallmaster_proxy.Base.{ℕ, [], ◌∷◌, Option, some, Result, ok, err, ◌≡◌, refl, ap, ◌∙◌, arith}
use hallmaster_proxy.Text.{Bytes}
use hallmaster_proxy.Http.{Request, Response, rewound}
use hallmaster_proxy.Http.Fields.{get}
use hallmaster_proxy.Httpio.{DecodeError}
use hallmaster_proxy.Httpio.Observe.{
  IsReadable, rewound-IsWhole, decode_body_left, IsShown, nil_on_error, decode_body-IsShown,
}
use hallmaster_proxy.Httpio.Frame.{IsFramed, encode-IsFramed}
use hallmaster_proxy.Tamper.PassThrough.{IsPassThrough, whole_body}
use hallmaster_proxy.Handlers.Https.State.{
  Deps, Session, Answers, Ran, session_of, forward, respond, close_body,
}
use hallmaster_proxy.Handlers.Https.Exchange.{decoded_or_nil, exchange, mirror}
use hallmaster_proxy.Handlers.Https.Mirror.{IsAnswered, asked, exchange-mirror, exchange_whole}

decoded_or_nil-same : (r : Result DecodeError (Option Bytes)) → decoded_or_nil r ≡ nil_on_error r
unfolding decoded_or_nil
decoded_or_nil-same (ok decoded) = refl
decoded_or_nil-same (err e) = refl

module _ {S : Type 0} (deps : Deps S) (pass : IsPassThrough deps.tamperer) where
  mirror_shows :
      (s : Session S) (req : Request) (a : Answers) (resp : Response) (full : Bytes)
      (shown : Option Bytes)
      → IsReadable deps.unicode resp
      → resp.body ≡ some (rewound full)
      → IsShown deps.codecs (get resp.header "Content-Encoding") full shown
      → (session_of (mirror deps s req a resp).1).tamper_state
        ≡ (deps.tamperer.response req resp shown s.tamper_state).0
  unfolding mirror
  mirror_shows s req a resp full shown r b h = ground (
    arith,
    pass.same_response req resp shown s.tamper_state,
    decode_body_left deps.unicode deps.codecs resp (λ body. rewound-IsWhole resp full body b),
    decode_body-IsShown deps.unicode deps.codecs resp full shown r b h,
    (encode-IsFramed deps.unicode resp full r b).0,
  )

  -- With a tamperer that rewrites nothing, an intercepted request that is no WebSocket upgrade, and
  -- whose body can be read, goes out unchanged. If the upstream answers with a textual, whole
  -- response, the tamperer is called with the request, then with the response, and with nothing
  -- else. With the response it is shown nil if there are no bytes; what the reader of the named
  -- Content-Encoding (gzip, deflate or br) makes of them, or nil if it fails; and the bytes
  -- themselves for any other encoding. In all these cases the client is sent the response with the
  -- bytes as they came, still compressed, and the same status, framed by Content-Length.
  pub exchange_observed :
      (s : Session S) (req : Request) (a : Answers) (conn : ℕ) (sent_body : Option Bytes)
      (read : Response) (full : Bytes) (shown : Option Bytes)
      → req.body ≡ whole_body sent_body
      → IsAnswered deps req a read
      → read.body ≡ some (rewound full)
      → IsShown deps.codecs (get read.header "Content-Encoding") full shown
      → ((session_of (exchange deps s req a conn).1).tamper_state
          ≡ (deps.tamperer.response req
              (record read { request = some req })
              shown
              (deps.tamperer.request req s.tamper_state).0).0)
        × (framed : Response) × ((exchange deps s req a conn).0
            ≡ forward conn req.host req ∷ respond s.layer framed ∷ close_body ∷ [])
        × IsFramed read full framed
  exchange_observed s req a conn sent_body read full shown b h whole is_shown =
      let mirrored = exchange-mirror deps pass s req a conn sent_body read b h in
      let resp = record read { request = some req } in
      let readable : IsReadable deps.unicode resp = record {
        request = req;
        answers = refl;
        textual = h.textual;
      } in
      let (framed, sent, is_framed) =
        exchange_whole deps pass s req a conn sent_body read full b h whole in
      (
        ap (λ (ran : Ran S). (session_of ran.1).tamper_state) mirrored
            ∙ mirror_shows (asked deps s req) req a resp full shown readable whole is_shown,
        framed,
        sent,
        is_framed,
      )
