-- ===== src/Tests/MitmTests.antt =====
-- A CONNECT, a listener that is cancelled, and a certificate for a CONNECT without SNI.
use hallmaster_proxy.Base.{true, false, [], ◌∷◌, none, some, ok, ◌≡◌, refl, ◌↔◌, arith}
use hallmaster_proxy.Text.{codes, equal}
use hallmaster_proxy.Net.{split_host_port, has_byte}
use hallmaster_proxy.Net.Split.{IsPlain}
use hallmaster_proxy.Certs.{Leaf, create_certificate, server_name_from_host, is_expiring_soon}
use hallmaster_proxy.Certs.Cache.{get_or_create, look_again}
use hallmaster_proxy.Mitm.{
  Client, connection, failed, handle_http_conn, serve, get_certificate, certificate_name,
  acknowledge, shake, handle, close_client,
}
use hallmaster_proxy.Mitm.Connection.{
  handle_http_conn-Follows, is_handled_iff, follow_all, fresh, over, is_handled, IsTunnel,
}
use hallmaster_proxy.Mitm.Accept.{serve-connections}
use hallmaster_proxy.Mitm.Presented.{get_certificate-name}
use hallmaster_proxy.Tests.Fixtures.{users_request}
use hallmaster_proxy.Tests.CertsTests.{
  group_of_one, test_signer, first_call, empty_cache, discord_certificate,
}
use hallmaster_proxy.Mitm.Handshake.{
  Hello, IsRegular, IsProper, handshake, handshake_all, handshake_all-IsProper,
}
use hallmaster_proxy.Mitm.Handled.{Peer, IsHost, shook, client_of, is_handled-IsFor}
use hallmaster_proxy.Tests.CertsTests.{later_call}
use hallmaster_proxy.Certs.{Certificate}
use hallmaster_proxy.Certs.Cache.Sound.{IsFor, Lasts}
use hallmaster_proxy.Text.{Bytes}
use hallmaster_proxy.Base.{List, Option, Result, err, All}

abbrev pub connecting : Client
connecting = record {
  first_byte = ok b'C';
  initial_request = ok (record users_request { method = codes "CONNECT" });
  handshake = λ host. none;
}

connecting-events :
    handle_http_conn connecting
    ≡ acknowledge ∷ shake (codes "discord.com") none ∷ handle ∷ close_client ∷ []
unfolding handle_http_conn equal
connecting-events = refl

handle_http_conn-Follows_test : follow_all (some fresh) (handle_http_conn connecting) ≡ some over
handle_http_conn-Follows_test = handle_http_conn-Follows connecting

is_handled_iff_test : (is_handled (handle_http_conn connecting) ≡ true) ↔ IsTunnel connecting
is_handled_iff_test = is_handled_iff connecting

serve-connections_test :
    serve (connection 1 ∷ failed false ∷ connection 2 ∷ failed true ∷ connection 3 ∷ [])
    ≡ record { ready = false; served = 2 ∷ 1 ∷ []; returned = true }
serve-connections_test =
    serve-connections (connection 1 ∷ failed false ∷ connection 2 ∷ failed true ∷ connection 3 ∷ [])

presented :
    (get_certificate group_of_one test_signer first_call (codes "discord.com:443") [] empty_cache).1
    ≡ ok discord_certificate
unfolding get_certificate certificate_name get_or_create look_again create_certificate
    server_name_from_host split_host_port is_expiring_soon
presented = refl

discord-IsPlain : IsPlain (codes "discord.com")
unfolding has_byte
discord-IsPlain = record { no_colon = refl; no_open = refl; no_close = refl }

https-IsPlain : IsPlain (codes "443")
unfolding has_byte
https-IsPlain = record { no_colon = refl; no_open = refl; no_close = refl }

get_certificate-name_test :
    (l : Leaf) × (discord_certificate.leaf ≡ some l)
    × (l.common_name ≡ codes "discord.com")
    × (l.dns_names ≡ codes "discord.com" ∷ [])
get_certificate-name_test =
    get_certificate-name group_of_one test_signer first_call (codes "discord.com") (codes "443")
      empty_cache discord_certificate (λ key fn cache. refl) (omega arith) (omega arith)
      (λ hostname c e. cc) discord-IsPlain https-IsPlain presented

-- A client that goes on with any certificate.
abbrev finishing : Result Bytes Certificate → Option Bytes
finishing (ok c) = none
finishing (err e) = some e

abbrev first_hello : Hello
first_hello = record {
  refused = none;
  sni = codes "discord.com";
  finish = finishing;
  call = first_call;
}

abbrev later_hello : Hello
later_hello = record { refused = none; sni = []; finish = finishing; call = later_call }

first_hello-IsRegular : IsRegular first_hello
first_hello-IsRegular = record {
  first_second = omega arith;
  second_created = omega arith;
  aborts = λ e. (e, refl);
}

later_hello-IsRegular : IsRegular later_hello
later_hello-IsRegular = record {
  first_second = omega arith;
  second_created = omega arith;
  aborts = λ e. (e, refl);
}

-- The second one draws nothing, and names no server.
abbrev two_hellos : List (Bytes × Hello)
two_hellos = (codes "discord.com", first_hello) ∷ (codes "discord.com", later_hello) ∷ []

handshake_all-IsProper_test :
    All IsProper (handshake_all group_of_one test_signer empty_cache two_hellos)
handshake_all-IsProper_test =
    handshake_all-IsProper group_of_one test_signer empty_cache two_hellos (λ key fn cache. refl)
      (λ hostname c e. cc) (first_hello-IsRegular, (later_hello-IsRegular, tt))

abbrev peer : Peer
peer = record {
  first_byte = connecting.first_byte;
  initial_request = connecting.initial_request;
  hello = first_hello;
}

peer-is_handled :
    is_handled (handle_http_conn (client_of group_of_one test_signer empty_cache peer)) ≡ true
unfolding handle_http_conn equal handshake get_certificate certificate_name get_or_create look_again
    create_certificate server_name_from_host split_host_port is_expiring_soon
peer-is_handled = refl

is_handled-IsFor_example :
    (host : Bytes) × IsHost peer host
    × ((c : Certificate) × ((shook group_of_one test_signer empty_cache peer host).presented
          ≡ some (ok c))
        × IsFor (certificate_name host first_hello.sni) c
        × Lasts first_hello.call.first_look c)
is_handled-IsFor_example =
    is_handled-IsFor group_of_one test_signer empty_cache peer (λ key fn cache. refl)
      (λ hostname c e. cc) first_hello-IsRegular peer-is_handled
