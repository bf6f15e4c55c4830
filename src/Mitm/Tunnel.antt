-- ===== src/Mitm/Tunnel.antt =====
-- All that is done on a connection whose session the handler takes over.
use hallmaster_proxy.Base.{[], ◌∷◌, none, ◌≡◌, arith, ◌⊎◌, inl, inr}
use hallmaster_proxy.Text.{Bytes, codes}
use hallmaster_proxy.Mitm.{
  Client, acknowledge, shake, handle, close_client, handle_if, handle_direct_tls, with_request,
  with_first_byte, handle_http_conn,
}
use hallmaster_proxy.Mitm.Connection.{IsTunnel}

direct_lem :
    (client : Client) (host : Bytes)
    → client.handshake host ≡ none
    → handle_direct_tls client host ≡ shake host none ∷ handle ∷ []
unfolding handle_direct_tls handle_if
direct_lem client host shaken = ground arith

pub handle_http_conn_lem :
    (client : Client)
    → IsTunnel client
    → (handle_http_conn client ≡ shake (codes "discord.com") none ∷ handle ∷ close_client ∷ [])
      ⊎ ((host : Bytes) × (handle_http_conn client
            ≡ acknowledge ∷ shake host none ∷ handle ∷ close_client ∷ []))
unfolding handle_http_conn with_first_byte with_request
handle_http_conn_lem client (inl (first, shaken)) =
    inl (ground (arith, direct_lem client (codes "discord.com") shaken))
handle_http_conn_lem client (inr (b, req, first, other, read, m, shaken)) =
    inr (req.host, ground (arith, direct_lem client req.host shaken))
