-- ===== src/Mitm/Connection.antt =====
-- What a client connection leads to.
use hallmaster_proxy.Base.{
  ℕ, Bool, true, false, List, [], ◌∷◌, ◌++◌, Option, none, some, Result, ok, err, ◌==◌, ◌≡◌, ◌≢◌,
  ◌⊎◌, ◌↔◌, refl, inl, inr, arith, Result-cases, Option-cases, Bool-cases, ==_iff, subst, sym, ap,
  ◌∙◌, ok-injective,
}
use hallmaster_proxy.Text.{Bytes, codes, equal}
use hallmaster_proxy.Http.{Request}
use hallmaster_proxy.Mitm.{
  Client, Event, acknowledge, shake, handle, close_client, handle_if, handle_direct_tls,
  with_request, with_first_byte, handle_http_conn,
}

-- How far a connection has come.
pub data Stage : Type 0 where
  fresh : Stage
  acknowledged : Stage
  secured : Stage
  handled : Stage
  over : Stage

-- The order that clients rely on; anything else is `none`.
abbrev pub follow : Stage → Event → Option Stage
follow fresh acknowledge = some acknowledged
follow fresh (shake h none) = some secured
follow fresh (shake h (some e)) = some handled
follow acknowledged (shake h none) = some secured
follow acknowledged (shake h (some e)) = some handled
follow secured handle = some handled
follow fresh close_client = some over
follow handled close_client = some over
follow _ _ = none

abbrev pub follow_all : Option Stage → List Event → Option Stage
follow_all none events = none
follow_all (some stage) [] = some stage
follow_all (some stage) (e ∷ events) = follow_all (follow stage e) events

direct-Follows :
    (client : Client) (hostname : Bytes)
    → (follow_all (some fresh) (handle_direct_tls client hostname ++ (close_client ∷ []))
        ≡ some over)
      × (follow_all (some acknowledged) (handle_direct_tls client hostname ++ (close_client ∷ []))
          ≡ some over)
unfolding handle_direct_tls handle_if
direct-Follows client hostname = elim (Option-cases (client.handshake hostname)) [
  | inl e ↦ rw e (refl, refl)
  | inr (x, e) ↦ rw e (refl, refl)
]

request-Follows :
    (client : Client) (r : Result Bytes Request)
    → follow_all (some fresh) (with_request client r ++ (close_client ∷ [])) ≡ some over
unfolding with_request
request-Follows client (err e) = refl
request-Follows client (ok req) = elim (Bool-cases (equal req.method (codes "CONNECT"))) [
  | inl e ↦ rw e (direct-Follows client req.host).1
  | inr e ↦ rw e refl
]

by_byte :
    (client : Client) (r : Result Bytes ℕ)
    → follow_all (some fresh) (with_first_byte client r ++ (close_client ∷ [])) ≡ some over
unfolding with_first_byte
by_byte client (err e) = refl
by_byte client (ok b) = elim (Bool-cases (b == 22)) [
  | inl e ↦ rw e (direct-Follows client (codes "discord.com")).0
  | inr e ↦ rw e (request-Follows client client.initial_request)
]

-- A connection is acknowledged at most once and before its one handshake; the handler runs right
-- behind a handshake that succeeded and never otherwise; the client is closed once, at the end.
pub handle_http_conn-Follows :
    (client : Client) → follow_all (some fresh) (handle_http_conn client) ≡ some over
unfolding handle_http_conn
handle_http_conn-Follows client = by_byte client client.first_byte

abbrev pub is_handled : List Event → Bool
is_handled [] = false
is_handled (handle ∷ events) = true
is_handled (_ ∷ events) = is_handled events

-- The two ways in: TLS from the first byte on, whose handshake is for discord.com, or a CONNECT.
abbrev pub IsTunnel : Client → Type 0
IsTunnel client =
    ((client.first_byte ≡ ok 22) × (client.handshake (codes "discord.com") ≡ none))
    ⊎ ((b : ℕ) × (req : Request) × (client.first_byte ≡ ok b)
        × (b ≢ 22)
        × (client.initial_request ≡ ok req)
        × (equal req.method (codes "CONNECT") ≡ true)
        × (client.handshake req.host ≡ none))

direct_iff :
    (client : Client) (hostname : Bytes)
    → (is_handled (handle_direct_tls client hostname ++ (close_client ∷ [])) ≡ true)
      ↔ (client.handshake hostname ≡ none)
unfolding handle_direct_tls handle_if
direct_iff client hostname = ground arith

request_iff :
    (client : Client) (r : Result Bytes Request)
    → (is_handled (with_request client r ++ (close_client ∷ [])) ≡ true) ↔ (
        (req : Request) × (r ≡ ok req)
        × (equal req.method (codes "CONNECT") ≡ true)
        × (client.handshake req.host ≡ none))
unfolding with_request
request_iff client (err e) = (λ h. cc, λ (req, r, m, s). cc)
request_iff client (ok req) = elim (Bool-cases (equal req.method (codes "CONNECT"))) [
  | inl e ↦ (
    λ h. (req, refl, e, (direct_iff client req.host).0 (ground arith)),
    λ (req', r, m, s). rw e (
        (direct_iff client req.host).1
          (subst (λ (x : Request). client.handshake x.host ≡ none) (sym (ok-injective r)) s)),
  )
  | inr e ↦ (
    λ h. absurd (ground arith),
    λ (req', r, m, s).
        let same = ap (λ (x : Request). equal x.method (codes "CONNECT")) (ok-injective r) in
        absurd (ground arith),
  )
]

-- The handler runs for a connection exactly if it begins with TLS, and the handshake for
-- discord.com succeeds, or else with a CONNECT, and the handshake for its host succeeds.
pub is_handled_iff :
    (client : Client) → (is_handled (handle_http_conn client) ≡ true) ↔ IsTunnel client
unfolding handle_http_conn with_first_byte
is_handled_iff client = elim (Result-cases client.first_byte) [
  | inr (e, f) ↦ rw f (λ h. cc, λ t. elim t [ inl (g, s) ↦ cc | inr (b, req, g, n, r, m, s) ↦ cc ])
  | inl (b, f) ↦ elim (Bool-cases (b == 22)) [
    | inl e ↦ (
      λ h. inl (
        f ∙ ap ok ((==_iff b 22).0 e),
        (direct_iff client (codes "discord.com")).0 (ground arith),
      ),
      λ t. elim t [
        | inl (g, s) ↦ rw (f, e) ((direct_iff client (codes "discord.com")).1 s)
        | inr (b', req, g, n, r, m, s) ↦ absurd (n (ok-injective (sym g ∙ f) ∙ (==_iff b 22).0 e))
      ],
    )
    | inr e ↦ (
      λ h.
          let (req, r, m, s) = (request_iff client client.initial_request).0 (ground arith) in
          inr (b, req, f, (λ same. absurd (ground arith)), r, m, s),
      λ t. elim t [
        | inl (g, s) ↦ let same = ok-injective (sym f ∙ g) in absurd (ground arith)
        | inr (b', req, g, n, r, m, s) ↦
            rw (f, e) ((request_iff client client.initial_request).1 (req, r, m, s))
      ],
    )
  ]
]
