-- ===== src/Mitm.antt =====
-- MITMProxy, proxy/internals/mitm.go: the listener's connections, its accept loop, and the
-- certificates it presents. TLS and sockets are Go's; their answers are inputs.
pub mod Connection
pub mod Accept
pub mod Presented
pub mod Handshake
pub mod Tunnel
pub mod Handled
pub mod Wire
use hallmaster_proxy.Base.{
  ℕ, Bool, true, false, List, [], ◌∷◌, ◌++◌, Option, none, some, Result, ok, err, ◌==◌,
  if◌then◌else◌,
}
use hallmaster_proxy.Text.{Bytes, codes, equal}
use hallmaster_proxy.Http.{Request}
use hallmaster_proxy.Certs.{Signer}
use hallmaster_proxy.Certs.Cache.{Cache, Call, Do, Served, get_or_create}

-- A client connection: the byte that is peeked, the request that http.ReadRequest would find, and
-- how the TLS handshake for a host would go. Errors are texts.
pub record Client : Type 0 where
  pub first_byte : Result Bytes ℕ
  pub initial_request : Result Bytes Request
  pub handshake : Bytes → Option Bytes

pub data Event : Type 0 where
  -- "200 Connection established"
  acknowledge : Event
  -- Handshake with the host, and its error
  shake : Bytes → Option Bytes → Event
  -- the handler takes the session over
  handle : Event
  close_client : Event

-- Serve's state: the ready flag, the connections that were handed to a goroutine (the last first),
-- and whether Serve has returned.
pub record Listener : Type 0 where
  pub ready : Bool
  pub served : List ℕ
  pub returned : Bool

-- What ln.Accept returns: a connection, or an error, with what ctx.Err() says then.
pub data Accepted : Type 0 where
  connection : ℕ → Accepted
  failed : Bool → Accepted

handle_if : Option Bytes → List Event
handle_if (some e) = []
handle_if none = handle ∷ []

pub handle_direct_tls : Client → Bytes → List Event
unfolding handle_if
handle_direct_tls client hostname =
    shake hostname (client.handshake hostname) ∷ handle_if (client.handshake hostname)

pub with_request : Client → Result Bytes Request → List Event
unfolding handle_direct_tls equal
with_request client (err e) = []
with_request client (ok req) =
    if equal req.method (codes "CONNECT")
    then acknowledge ∷ handle_direct_tls client req.host
    else []

pub with_first_byte : Client → Result Bytes ℕ → List Event
unfolding with_request
with_first_byte client (err e) = []
with_first_byte client (ok b) =
    if b == 22
    then handle_direct_tls client (codes "discord.com")
    else with_request client client.initial_request

-- handleHTTPConn, the deferred close included
unfoldable pub handle_http_conn : Client → List Event
unfolding with_first_byte
handle_http_conn client = with_first_byte client client.first_byte ++ (close_client ∷ [])

-- One turn of Serve's loop; Serve that has returned does nothing.
unfoldable pub accept_round : Listener → Accepted → Listener
accept_round l (connection conn) = if l.returned then l else record l { served = conn ∷ l.served }
accept_round l (failed cancelled) =
    if l.returned then l else if cancelled then record l { returned = true; ready = false } else l

accept_all : Listener → List Accepted → Listener
unfolding accept_round
accept_all l [] = l
accept_all l (a ∷ accepts) = accept_all (accept_round l a) accepts

-- Serve on what ln.Accept returns in turn.
unfoldable pub serve : List Accepted → Listener
unfolding accept_all
serve accepts = accept_all (record { ready = true; served = []; returned = false }) accepts

-- The hostname that GetCertificate asks for: the client's SNI, or the host of the connection.
unfoldable pub certificate_name : Bytes → Bytes → Bytes
certificate_name host [] = host
certificate_name host (c ∷ sni) = c ∷ sni

-- GetCertificate in Handshake's TLS configuration
unfoldable pub get_certificate : Do → Signer → Call → Bytes → Bytes → Cache → Served
unfolding certificate_name get_or_create
get_certificate group_do signer call host sni cache =
    get_or_create group_do signer call (certificate_name host sni) cache
