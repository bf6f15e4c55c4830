-- ===== src/Handlers/Https/Route.antt =====
-- Where a request goes: untouched if it is not Discord's, over the open upstream if it is for the
-- same host, and to the address that the external resolver found.
use hallmaster_proxy.Base.{
  ℕ, Bool, true, false, List, [], ◌∷◌, ◌⊎◌, Option, none, some, ok, ◌≡◌, refl, arith, All,
}
use mathlib.Core.List.{Memᴰ}
use hallmaster_proxy.Text.{Bytes, codes, equal}
use hallmaster_proxy.Text.Affix.{equal_refl}
use hallmaster_proxy.Net.{split_host_port}
use hallmaster_proxy.Dns.{LookupHost, target, resolve}
use hallmaster_proxy.Dns.Address.{IsAddress, resolve-split}
use hallmaster_proxy.Http.{Request}
use hallmaster_proxy.Handlers.Host.{is_discord_host}
use hallmaster_proxy.Handlers.Https.State.{
  Deps, Session, Event, Answers, Ran, session_of, returns, dial, close_upstream, forward, pump,
  inspect,
}
use hallmaster_proxy.Handlers.Https.Exchange.{exchange}
use hallmaster_proxy.Handlers.Https.{
  step, serve_request, leave_other_host, with_upstream, upstream_dial, proceed, target_host,
  upstream_config,
}

-- What the round does besides opening and closing upstreams.
abbrev pub traffic : List Event → List Event
traffic [] = []
traffic (dial d conn ∷ events) = traffic events
traffic (close_upstream conn ∷ events) = traffic events
traffic (e ∷ events) = e ∷ traffic events

-- The request, as it came in, over the upstream if there is one; and behind a write that succeeds,
-- the copies in both directions.
abbrev pub blind_relay : Option ℕ → ℕ → Request → Option Bytes → List Event
blind_relay none layer req write_error = []
blind_relay (some conn) layer req none = forward conn req.host req ∷ pump conn layer ∷ []
blind_relay (some conn) layer req (some e) = forward conn req.host req ∷ []

abbrev pub is_open : Option ℕ → Bool
is_open none = false
is_open (some conn) = true

-- No upstream is opened or closed, and requests go out over `conn`.
abbrev pub IsOver : ℕ → Event → Type 0
IsOver conn (dial d c) = ⊥
IsOver conn (close_upstream c) = ⊥
IsOver conn (forward c host sent) = c ≡ conn
IsOver conn (pump c layer) = c ≡ conn
IsOver conn (inspect c layer compressed) = c ≡ conn
IsOver conn _ = Unit

module _ {S : Type 0} where
  -- Blind traffic: what a round may do to it.
  pub record IsPassed (deps : Deps S) (s : Session S) (req : Request) (a : Answers) (ran : Ran S)
      : Type 0 where
    pub relayed :
        traffic ran.0 ≡ blind_relay (session_of ran.1).server s.layer req (a.write_request req)
    -- there is an upstream, unless one had to be dialled and the dial failed
    pub reached :
        (is_open (session_of ran.1).server ≡ true)
        ⊎ ((e : Bytes) × (a.dial (upstream_dial deps req a) ≡ some e))
    pub tamperer : (session_of ran.1).tamper_state ≡ s.tamper_state
    pub last : returns ran.1 ≡ true

  -- While the upstream is open and the Host stays the same, a request that is no CONNECT goes out
  -- over that connection: no other is dialled, and it is not closed.
  pub step-IsOver :
      (deps : Deps S) (s : Session S) (req : Request) (a : Answers) (conn : ℕ)
      → equal req.method (codes "CONNECT") ≡ false
      → s.server ≡ some conn
      → s.dialled_host ≡ req.host
      → All (IsOver conn) (step deps s req a).0
  unfolding step serve_request leave_other_host with_upstream proceed exchange
  step-IsOver deps s req a conn m opened same = ground (arith, equal_refl req.host)

-- The dial for a Discord host whose lookup succeeded, with textual addresses, goes to the first address found and the port
-- that was asked for (443 if none), while the TLS server name stays the Host of the request.
pub upstream_dial-resolve :
    {S : Type 0} (deps : Deps S) (req : Request) (a : Answers) (lookup_host : LookupHost)
    {address : Bytes}
    → is_discord_host deps.unicode req.host ≡ true
    → ((name : Bytes) (ips : List Bytes)
        → lookup_host name ≡ ok ips
        → (ip : Bytes) → Memᴰ ip ips
        → IsAddress ip)
    → resolve lookup_host req.host ≡ ok address
    → a.resolve req.host ≡ ok address
    → (ip : Bytes) × (ips : List Bytes) × (lookup_host (target req.host).0 ≡ ok (ip ∷ ips))
      × (split_host_port (upstream_dial deps req a).address ≡ ok (ip, (target req.host).1))
      × ((upstream_dial deps req a).config.server_name ≡ req.host)
unfolding target_host upstream_config
upstream_dial-resolve deps req a lookup_host h valid r e =
    let (ip, ips, found, split) = resolve-split lookup_host req.host valid r in
    (ip, ips, found, rw (h, e) split, refl)
