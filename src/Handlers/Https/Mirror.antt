-- ===== src/Handlers/Https/Mirror.antt =====
-- What the client is sent for an intercepted request.
use hallmaster_proxy.Base.{ℕ, true, false, [], ◌∷◌, Option, none, some, ok, ◌≡◌, refl, arith}
use hallmaster_proxy.Text.{Bytes}
use hallmaster_proxy.Http.{Body, Request, Response, rewound, read_failed}
use hallmaster_proxy.Http.Fields.{get}
use hallmaster_proxy.Httpio.{is_binary, decode_body, encode}
use hallmaster_proxy.Httpio.Observe.{
  IsReadable, rewound-IsWhole, decode_body_left, decode_body_broken, encode_broken,
}
use hallmaster_proxy.Httpio.Frame.{IsFramed, IsFramed-left, encode-IsFramed}
use hallmaster_proxy.Tamper.PassThrough.{IsPassThrough, whole_body, same_request_of}
use hallmaster_proxy.Handlers.Https.State.{
  Deps, Session, Answers, returns, emit, forward, respond, close_body,
}
use hallmaster_proxy.Handlers.Https.Exchange.{
  is_websocket_upgrade, decoded_or_nil, exchange, mirror,
}

-- The upstream took `req` and answered `read`, which is no switch to WebSocket and not binary.
pub record IsAnswered {S : Type 0} (deps : Deps S) (req : Request) (a : Answers) (read : Response)
    : Type 0 where
  pub sent : a.write_request req ≡ none
  pub answers : a.read_response req ≡ ok read
  pub no_websocket : is_websocket_upgrade deps.unicode req ≡ false
  pub textual : is_binary deps.unicode (get read.header "Content-Type") ≡ false

-- The tamperer has seen the request.
abbrev pub asked : {S : Type 0} → Deps S → Session S → Request → Session S
asked deps s req = record s { tamper_state = (deps.tamperer.request req s.tamper_state).0 }

module _ {S : Type 0} (deps : Deps S) (pass : IsPassThrough deps.tamperer) where
  pub mirror_whole :
      (s : Session S) (req : Request) (a : Answers) (resp : Response) (full : Bytes)
      → IsReadable deps.unicode resp
      → resp.body ≡ some (rewound full)
      → (mirror deps s req a resp).0
        ≡ respond s.layer (encode deps.unicode resp).0 ∷ close_body ∷ []
  unfolding mirror
  mirror_whole s req a resp full r b =
      let (left, decoded) = decode_body deps.unicode deps.codecs resp in
      ground (
        arith,
        pass.same_response req left (decoded_or_nil decoded) s.tamper_state,
        decode_body_left deps.unicode deps.codecs resp (λ body. rewound-IsWhole resp full body b),
        (encode-IsFramed deps.unicode resp full r b).0,
      )

  abbrev failed_read : Response → Body → Response
  failed_read resp body = record resp { body = some (read_failed body) }

  mirror_broken :
      (s : Session S) (req : Request) (a : Answers) (resp : Response) (body : Body)
      → IsReadable deps.unicode resp
      → resp.body ≡ some body
      → body.broken ≡ true
      → body.again ≡ true
      → ((mirror deps s req a resp).0 ≡ close_body ∷ [])
        × (returns (mirror deps s req a resp).1 ≡ true)
  unfolding mirror
  mirror_broken s req a resp body r b broken again =
      let left = failed_read resp body in
      let (left', decoded) = decode_body deps.unicode deps.codecs resp in
      ground (
        arith,
        pass.same_response req left' (decoded_or_nil decoded) s.tamper_state,
        decode_body_broken deps.unicode deps.codecs resp body r b broken,
        encode_broken deps.unicode left (read_failed body)
            (record { request = r.request; answers = r.answers; textual = r.textual }) refl again,
      )

  mirror_cut :
      (s : Session S) (req : Request) (a : Answers) (resp : Response) (body : Body)
      → IsReadable deps.unicode resp
      → resp.body ≡ some body
      → body.broken ≡ true
      → body.again ≡ false
      → (mirror deps s req a resp).0
        ≡ respond s.layer (encode deps.unicode (failed_read resp body)).0 ∷ close_body ∷ []
  unfolding mirror
  mirror_cut s req a resp body r b broken over =
      let left = failed_read resp body in
      let (left', decoded) = decode_body deps.unicode deps.codecs resp in
      ground (
        arith,
        pass.same_response req left' (decoded_or_nil decoded) s.tamper_state,
        decode_body_broken deps.unicode deps.codecs resp body r b broken,
        (encode-IsFramed deps.unicode left []
            (record { request = r.request; answers = r.answers; textual = r.textual })
            (rw over refl)).0,
      )

  pub exchange-mirror :
      (s : Session S) (req : Request) (a : Answers) (conn : ℕ) (sent_body : Option Bytes)
      (read : Response)
      → req.body ≡ whole_body sent_body
      → IsAnswered deps req a read
      → exchange deps s req a conn
        ≡ emit
            (forward conn req.host req ∷ [])
            (mirror deps (asked deps s req) req a (record read { request = some req }))
  unfolding exchange
  exchange-mirror s req a conn sent_body read b h = ground (
    arith,
    same_request_of deps.tamperer pass req sent_body s.tamper_state b,
    h.sent,
    h.answers,
    h.no_websocket,
  )

  -- With a tamperer that rewrites nothing, an intercepted request that is no WebSocket upgrade,
  -- and whose body can be read, goes out unchanged; and if the upstream answers with a textual,
  -- whole response, the client is sent that response with the same bytes and status, framed by
  -- Content-Length.
  pub exchange_whole :
      (s : Session S) (req : Request) (a : Answers) (conn : ℕ) (sent_body : Option Bytes)
      (read : Response) (full : Bytes)
      → req.body ≡ whole_body sent_body
      → IsAnswered deps req a read
      → read.body ≡ some (rewound full)
      → (framed : Response) × ((exchange deps s req a conn).0
          ≡ forward conn req.host req ∷ respond s.layer framed ∷ close_body ∷ [])
        × IsFramed read full framed
  exchange_whole s req a conn sent_body read full b h whole =
      let e = exchange-mirror s req a conn sent_body read b h in
      let resp = record read { request = some req } in
      let readable : IsReadable deps.unicode resp = record {
        request = req;
        answers = refl;
        textual = h.textual;
      } in
      let framed = encode-IsFramed deps.unicode resp full readable whole in
      (
        (encode deps.unicode resp).0,
        rw (e, mirror_whole (asked deps s req) req a resp full readable whole) refl,
        IsFramed-left read (some req) read.body full (encode deps.unicode resp).0 framed.1,
      )

  -- With a tamperer that rewrites nothing, an intercepted request that is no WebSocket upgrade,
  -- and whose body can be read, goes out unchanged; and if the upstream answers with a textual
  -- response whose body breaks off, what follows depends on its reader. If a second read fails as
  -- well, nothing is written to the client, the body is closed and the handler returns. If a second
  -- read finds the end of the stream, the client is sent the response with an empty body in place of
  -- the cut one, with the same status, framed by a Content-Length of 0, and the body is closed.
  pub exchange_broken :
      (s : Session S) (req : Request) (a : Answers) (conn : ℕ) (sent_body : Option Bytes)
      (read : Response) (body : Body)
      → req.body ≡ whole_body sent_body
      → IsAnswered deps req a read
      → read.body ≡ some body
      → body.broken ≡ true
      → (body.again ≡ true
          → ((exchange deps s req a conn).0 ≡ forward conn req.host req ∷ close_body ∷ [])
            × (returns (exchange deps s req a conn).1 ≡ true))
        × (body.again ≡ false
            → (framed : Response) × ((exchange deps s req a conn).0
                ≡ forward conn req.host req ∷ respond s.layer framed ∷ close_body ∷ [])
              × IsFramed read [] framed)
  exchange_broken s req a conn sent_body read body b h some_body broken =
      let e = exchange-mirror s req a conn sent_body read b h in
      let resp = record read { request = some req } in
      let left = failed_read resp body in
      let t = asked deps s req in
      let readable : IsReadable deps.unicode resp = record {
        request = req;
        answers = refl;
        textual = h.textual;
      } in
      let left_readable : IsReadable deps.unicode left = record {
        request = req;
        answers = refl;
        textual = h.textual;
      } in
      (
        λ again.
            let (events, stops) = mirror_broken t req a resp body readable some_body broken again in
            rw e (rw events refl, stops),
        λ over.
            let framed = encode-IsFramed deps.unicode left [] left_readable (rw over refl) in
            (
              (encode deps.unicode left).0,
              rw (e, mirror_cut t req a resp body readable some_body broken over) refl,
              IsFramed-left read (some req) left.body [] (encode deps.unicode left).0 framed.1,
            ),
      )
