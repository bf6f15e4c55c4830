-- ===== src/Handlers/Https/KeepAlive.antt =====
-- A session of several requests for one intercepted host, over one upstream.
use hallmaster_proxy.Base.{
  true, false, List, [], ◌∷◌, ◌++◌, Option, none, some, ◌≡◌, refl, ap, ap₂, ◌∙◌, arith, All, map,
}
use hallmaster_proxy.Text.{Bytes, codes, equal}
use hallmaster_proxy.Text.Affix.{equal_refl}
use hallmaster_proxy.Http.{Request, Response, rewound}
use hallmaster_proxy.Httpio.{decode_body, encode}
use hallmaster_proxy.Httpio.Observe.{IsReadable, rewound-IsWhole, decode_body_left}
use hallmaster_proxy.Httpio.Frame.{IsFramed, IsFramed-left, encode-IsFramed}
use hallmaster_proxy.Tamper.PassThrough.{IsPassThrough, whole_body}
use hallmaster_proxy.Handlers.Https.State.{
  Deps, Session, Event, Answers, Turn, asks, Ran, Outcome, next, start, emit, dial, close_upstream,
  forward, respond, close_body,
}
use hallmaster_proxy.Handlers.Https.Exchange.{decoded_or_nil, exchange, mirror}
use hallmaster_proxy.Handlers.Https.Mirror.{IsAnswered, asked, mirror_whole, exchange-mirror}
use hallmaster_proxy.Handlers.Https.{
  run, after, step, should_intercept, serve_request, leave_other_host, with_upstream, upstream_dial,
  proceed,
}

-- A request, the environment's answers, the response that the upstream sends, and both bodies.
pub record Exchange : Type 0 where
  pub req : Request
  pub answers : Answers
  pub read : Response
  pub sent_body : Option Bytes
  pub full : Bytes

abbrev pub turns_of : List Exchange → List Turn
turns_of exchanges = map (λ x. asks x.req x.answers) exchanges

-- A request for `host`, with a body that can be read, if any; the upstream takes it and answers in
-- text and in full; and the client takes the response.
pub record IsWhole {S : Type 0} (deps : Deps S) (host : Bytes) (x : Exchange) : Type 0 where
  pub no_connect : equal x.req.method (codes "CONNECT") ≡ false
  pub same_host : x.req.host ≡ host
  pub readable : x.req.body ≡ whole_body x.sent_body
  pub answered : IsAnswered deps x.req x.answers x.read
  pub whole : x.read.body ≡ some (rewound x.full)
  pub taken : (resp : Response) → x.answers.write_response resp ≡ none

-- The session is idle between two exchanges over upstream 0.
abbrev pub over : {S : Type 0} → Bytes → S → Session S
over host t = record (start t) { server = some 0; dialled_host = host; dials = 1 }

-- One request and its framed response after the other, and the close.
abbrev pub IsServed : Bytes → List Exchange → List Event → Type 0
IsServed host [] events = events ≡ close_upstream 0 ∷ []
IsServed host (x ∷ exchanges) events =
    (framed : Response) × (rest : List Event) × (events
      ≡ forward 0 host x.req ∷ respond 0 framed ∷ close_body ∷ rest)
    × IsFramed x.read x.full framed
    × IsServed host exchanges rest

module _ {S : Type 0} (deps : Deps S) (pass : IsPassThrough deps.tamperer) (host : Bytes) where
  mirror_next :
      (s : Session S) (req : Request) (a : Answers) (resp : Response) (full : Bytes)
      → IsReadable deps.unicode resp
      → resp.body ≡ some (rewound full)
      → ((resp : Response) → a.write_response resp ≡ none)
      → (t : S) × ((mirror deps s req a resp).1 ≡ next (record s { tamper_state = t }))
  unfolding mirror
  mirror_next s req a resp full r b taken =
      let (left, decoded) = decode_body deps.unicode deps.codecs resp in
      (
        (deps.tamperer.response req left (decoded_or_nil decoded) s.tamper_state).0,
        ground (
          arith,
          pass.same_response req left (decoded_or_nil decoded) s.tamper_state,
          decode_body_left deps.unicode deps.codecs resp (λ body. rewound-IsWhole resp full body b),
          (encode-IsFramed deps.unicode resp full r b).0,
          taken (encode deps.unicode resp).0,
        ),
      )

  exchange-over :
      (t : S) (x : Exchange)
      → IsWhole deps host x
      → (t' : S) × (framed : Response) × (exchange deps (over host t) x.req x.answers 0
          ≡ (forward 0 host x.req ∷ respond 0 framed ∷ close_body ∷ [], next (over host t')))
        × IsFramed x.read x.full framed
  exchange-over t x h =
      let e =
        exchange-mirror deps pass (over host t) x.req x.answers 0 x.sent_body x.read h.readable
          h.answered in
      let resp = record x.read { request = some x.req } in
      let readable : IsReadable deps.unicode resp = record {
        request = x.req;
        answers = refl;
        textual = h.answered.textual;
      } in
      let s = asked deps (over host t) x.req in
      let sent = mirror_whole deps pass s x.req x.answers resp x.full readable h.whole in
      let (t', goes_on) = mirror_next s x.req x.answers resp x.full readable h.whole h.taken in
      let framed = (encode-IsFramed deps.unicode resp x.full readable h.whole).1 in
      let named = ap (λ (host : Bytes). forward 0 host x.req ∷ []) h.same_host in
      (
        t',
        (encode deps.unicode resp).0,
        e
            ∙ ap₂ (λ (first : List Event) (ran : Ran S). emit first ran) named
                (ap₂ (λ (events : List Event) (o : Outcome S). (events, o)) sent goes_on),
        IsFramed-left x.read (some x.req) x.read.body x.full (encode deps.unicode resp).0 framed,
      )

  step-over :
      (t : S) (x : Exchange)
      → IsWhole deps host x
      → should_intercept deps host ≡ true
      → step deps (over host t) x.req x.answers ≡ exchange deps (over host t) x.req x.answers 0
  unfolding step serve_request leave_other_host with_upstream proceed
  step-over t x h intercepted =
      let here = ap (should_intercept deps) h.same_host ∙ intercepted in
      let same = ap (λ (name : Bytes). equal name host) h.same_host ∙ equal_refl host in
      ground (arith, h.no_connect, here, same)

  run-over :
      (t : S) (exchanges : List Exchange)
      → should_intercept deps host ≡ true
      → All (IsWhole deps host) exchanges
      → IsServed host exchanges (run deps (over host t) (turns_of exchanges))
  unfolding run after
  run-over t [] intercepted all = refl
  run-over t (x ∷ exchanges) intercepted (h, all) =
      let (t', framed, e, is_framed) = exchange-over t x h in
      (
        framed,
        run deps (over host t') (turns_of exchanges),
        ap (λ (ran : Ran S). ran.0 ++ after (λ s. run deps s (turns_of exchanges)) ran.1)
            (step-over t x h intercepted ∙ e),
        is_framed,
        run-over t' exchanges intercepted all,
      )

  step-start :
      (t : S) (x : Exchange)
      → IsWhole deps host x
      → should_intercept deps host ≡ true
      → x.answers.dial (upstream_dial deps x.req x.answers) ≡ none
      → step deps (start t) x.req x.answers
        ≡ emit
            (dial (upstream_dial deps x.req x.answers) 0 ∷ [])
            (exchange deps (over x.req.host t) x.req x.answers 0)
  unfolding step serve_request leave_other_host with_upstream proceed
  step-start t x h intercepted dialled =
      let here = ap (should_intercept deps) h.same_host ∙ intercepted in
      ground (arith, h.no_connect, here, dialled)

  -- A session begins with one or more requests for an intercepted host, none a CONNECT or a
  -- WebSocket upgrade, each with a body that can be read, if any; the first dial and all writes
  -- succeed, the upstream answers each in text and in full, and the tamperer rewrites nothing. Then
  -- one upstream is dialled, each request goes out over it as it came, the client is sent its
  -- response with the same bytes and status, framed by Content-Length, and the response's body is
  -- closed, before the next request goes out; and the upstream is closed at the end of the input.
  pub run-IsServed :
      (t : S) (x : Exchange) (exchanges : List Exchange)
      → should_intercept deps host ≡ true
      → x.answers.dial (upstream_dial deps x.req x.answers) ≡ none
      → All (IsWhole deps host) (x ∷ exchanges)
      → (events : List Event) × (run deps (start t) (turns_of (x ∷ exchanges))
          ≡ dial (upstream_dial deps x.req x.answers) 0 ∷ events)
        × IsServed host (x ∷ exchanges) events
  unfolding run after
  run-IsServed t x exchanges intercepted dialled (h, all) =
      let (t', framed, e, is_framed) = exchange-over t x h in
      let rest = run deps (over host t') (turns_of exchanges) in
      let d = dial (upstream_dial deps x.req x.answers) 0 in
      let first =
        step-start t x h intercepted dialled
        ∙ ap (λ (name : Bytes). emit (d ∷ []) (exchange deps (over name t) x.req x.answers 0))
            h.same_host
        ∙ ap (λ (ran : Ran S). emit (d ∷ []) ran) e in
      (
        forward 0 host x.req ∷ respond 0 framed ∷ close_body ∷ rest,
        ap (λ (ran : Ran S). ran.0 ++ after (λ s. run deps s (turns_of exchanges)) ran.1) first,
        (framed, rest, refl, is_framed, run-over t' exchanges intercepted all),
      )
