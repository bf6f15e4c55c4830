-- ===== src/Mitm/Handled.antt =====
-- A client connection with its TLS handshake: which certificate is behind a session that the handler
-- takes over.
use hallmaster_proxy.Base.{some, ℕ, true, none, ok, Result, [], ◌∷◌, ◌≡◌, ◌⊎◌, inl, inr, refl}
use hallmaster_proxy.Text.{Bytes, codes, equal}
use hallmaster_proxy.Http.{Request}
use hallmaster_proxy.Certs.{Signer, Certificate}
use hallmaster_proxy.Certs.Cache.{Cache, Do}
use hallmaster_proxy.Certs.Cache.Sound.{IsFor, IsSound, Lasts}
use hallmaster_proxy.Certs.Cache.Served.{Runs}
use hallmaster_proxy.Mitm.{Client, handle_http_conn, certificate_name}
use hallmaster_proxy.Mitm.Connection.{is_handled, is_handled_iff}
use hallmaster_proxy.Mitm.Handshake.{
  Hello, Shook, handshake, handshake_all, IsRegular, handshake_all-IsProper,
}

-- What the other side sends: the first byte, a request if it is not TLS, and its ClientHello.
pub record Peer : Type 0 where
  pub first_byte : Result Bytes ℕ
  pub initial_request : Result Bytes Request
  pub hello : Hello

abbrev pub shook : Do → Signer → Cache → Peer → Bytes → Shook
shook group_do signer cache peer host = (handshake group_do signer host peer.hello cache).1

-- The connection that handleHTTPConn sees: its handshakes are Handshake's.
abbrev pub client_of : Do → Signer → Cache → Peer → Client
client_of group_do signer cache peer = record {
  first_byte = peer.first_byte;
  initial_request = peer.initial_request;
  handshake = λ host. (shook group_do signer cache peer host).error;
}

-- The host that the connection is for.
abbrev pub IsHost : Peer → Bytes → Type 0
IsHost peer host =
    ((peer.first_byte ≡ ok 22) × (host ≡ codes "discord.com"))
    ⊎ ((req : Request) × (peer.initial_request ≡ ok req)
        × (equal req.method (codes "CONNECT") ≡ true)
        × (host ≡ req.host))

shook-IsProper :
    (group_do : Do) (signer : Signer) (cache : Cache) (peer : Peer) (host : Bytes)
    → Runs group_do
    → IsSound cache
    → IsRegular peer.hello
    → (shook group_do signer cache peer host).error ≡ none
    → (c : Certificate) × ((shook group_do signer cache peer host).presented ≡ some (ok c))
      × IsFor (certificate_name host peer.hello.sni) c
      × Lasts peer.hello.call.first_look c
unfolding handshake_all handshake
shook-IsProper group_do signer cache peer host runs sound regular =
    (handshake_all-IsProper group_do signer cache ((host, peer.hello) ∷ []) runs sound
      (regular, tt)).0

-- Where singleflight runs the function, the clock does not go back during a call, crypto/tls aborts
-- a handshake whose GetCertificate fails, and the cache is sound: a connection that the handler
-- takes over is for discord.com, if it began with TLS, or for the host of a CONNECT that it
-- began with, and its client was presented with a certificate for the name in its ClientHello, or
-- for that host if there is none, that lasts for another day.
pub is_handled-IsFor :
    (group_do : Do) (signer : Signer) (cache : Cache) (peer : Peer)
    → Runs group_do
    → IsSound cache
    → IsRegular peer.hello
    → is_handled (handle_http_conn (client_of group_do signer cache peer)) ≡ true
    → (host : Bytes) × IsHost peer host
      × ((c : Certificate) × ((shook group_do signer cache peer host).presented ≡ some (ok c))
          × IsFor (certificate_name host peer.hello.sni) c
          × Lasts peer.hello.call.first_look c)
is_handled-IsFor group_do signer cache peer runs sound regular handled =
    let client = client_of group_do signer cache peer in
    let proper =
      λ (host : Bytes). shook-IsProper group_do signer cache peer host runs sound regular in
    elim ((is_handled_iff client).0 handled) [
      | inl (first, shaken) ↦
          (codes "discord.com", inl (first, refl), proper (codes "discord.com") shaken)
      | inr (b, req, first, other, read, m, shaken) ↦
          (req.host, inr (req, read, m, refl), proper req.host shaken)
    ]
