-- ===== src/Mitm/Handshake.antt =====
-- MITMProxy.Handshake, proxy/internals/mitm.go: crypto/tls asks GetCertificate on the ClientHello,
-- and the handshakes of all connections share the cache of leaf certificates.
use hallmaster_proxy.Base.{
  ◌≤◌, List, [], ◌∷◌, Option, none, some, Result, ok, err, ◌≡◌, refl, ◌∙◌, All, sym,
}
use hallmaster_proxy.Text.{Bytes}
use hallmaster_proxy.Certs.{Signer, Certificate}
use hallmaster_proxy.Certs.Cache.{Cache, Call, Do}
use hallmaster_proxy.Certs.Cache.Sound.{IsFor, IsSound, Lasts}
use hallmaster_proxy.Certs.Cache.Served.{Runs, get_or_create-IsServed}
use hallmaster_proxy.Mitm.{certificate_name, get_certificate}

-- One handshake: the error with which crypto/tls ends it before it asks for a certificate, if any;
-- the name in the ClientHello; how crypto/tls goes on with what GetCertificate returns; and the
-- call's clock and draws.
pub record Hello : Type 0 where
  pub refused : Option Bytes
  pub sni : Bytes
  pub finish : Result Bytes Certificate → Option Bytes
  pub call : Call

-- What came of it, on a connection for a host: what GetCertificate returned, where it was called,
-- and Handshake's error.
pub record Shook : Type 0 where
  pub host : Bytes
  pub hello : Hello
  pub presented : Option (Result Bytes Certificate)
  pub error : Option Bytes

-- What GetCertificate returned, where it was called, and the error, with the cache that is left.
asks_for :
    Do
    → Signer
    → Bytes
    → Hello
    → Cache
    → Option Bytes
    → Cache × (Option (Result Bytes Certificate) × Option Bytes)
unfolding get_certificate
asks_for group_do signer host hello cache (some e) = (cache, (none, some e))
asks_for group_do signer host hello cache none =
    let (cache', presented) = get_certificate group_do signer hello.call host hello.sni cache in
    (cache', (some presented, hello.finish presented))

abbrev shook : Bytes → Hello → Option (Result Bytes Certificate) × Option Bytes → Shook
shook host hello (presented, error) = record {
  host = host;
  hello = hello;
  presented = presented;
  error = error;
}

unfoldable pub handshake : Do → Signer → Bytes → Hello → Cache → Cache × Shook
unfolding asks_for
handshake group_do signer host hello cache =
    let (cache', ended) = asks_for group_do signer host hello cache hello.refused in
    (cache', shook host hello ended)

-- Handshakes of any connections, one behind the other.
unfoldable pub handshake_all : Do → Signer → Cache → List (Bytes × Hello) → List Shook
unfolding handshake
handshake_all group_do signer cache [] = []
handshake_all group_do signer cache ((host, hello) ∷ hellos) =
    let (cache', ended) = handshake group_do signer host hello cache in
    ended ∷ handshake_all group_do signer cache' hellos

-- The clock does not go back in a call, and crypto/tls aborts where GetCertificate fails.
pub record IsRegular (hello : Hello) : Type 0 where
  pub first_second : hello.call.first_look ≤ hello.call.second_look
  pub second_created : hello.call.second_look ≤ hello.call.created
  pub aborts : (e : Bytes) → (why : Bytes) × (hello.finish (err e) ≡ some why)

-- A handshake that succeeds has presented a certificate for the name that the client asked for, or
-- for the connection's host, and it lasts for another day.
abbrev pub IsProper : Shook → Type 0
IsProper shook =
    shook.error ≡ none
    → (c : Certificate) × (shook.presented ≡ some (ok c))
      × IsFor (certificate_name shook.host shook.hello.sni) c
      × Lasts shook.hello.call.first_look c

IsProper-if :
    (host : Bytes) (hello : Hello) (presented : Result Bytes Certificate)
    → IsRegular hello
    → ((c : Certificate)
        → presented ≡ ok c
        → IsFor (certificate_name host hello.sni) c × Lasts hello.call.first_look c)
    → IsProper (record {
      host = host;
      hello = hello;
      presented = some presented;
      error = hello.finish presented;
    })
IsProper-if host hello (ok c) regular good h = (c, refl, (good c refl).0, (good c refl).1)
IsProper-if host hello (err e) regular good h =
    let (why, aborted) = regular.aborts e in absurd (cc (sym aborted ∙ h))

asks_for-IsProper :
    (group_do : Do) (signer : Signer) (host : Bytes) (hello : Hello) (cache : Cache)
    (o : Option Bytes)
    → Runs group_do
    → IsSound cache
    → IsRegular hello
    → IsSound (asks_for group_do signer host hello cache o).0
      × IsProper (shook host hello (asks_for group_do signer host hello cache o).1)
unfolding asks_for get_certificate
asks_for-IsProper group_do signer host hello cache (some e) runs sound r =
    (sound, λ h. absurd (cc h))
asks_for-IsProper group_do signer host hello cache none runs sound r =
    let name = certificate_name host hello.sni in
    let served =
      get_or_create-IsServed group_do signer hello.call name cache runs r.first_second
        r.second_created sound in
    (
      served.sound,
      IsProper-if host hello (get_certificate group_do signer hello.call host hello.sni cache).1 r
          (λ c e. ((served.handed_out c e).1, (served.handed_out c e).2)),
    )

-- Where singleflight runs the function, the clock does not go back during a call, and crypto/tls
-- aborts a handshake whose GetCertificate fails: from a sound cache on, in any sequence of handshakes,
-- each that succeeds has presented a certificate that is for the name in its ClientHello, or
-- for the connection's host if there is none, and that lasts for another day.
pub handshake_all-IsProper :
    (group_do : Do) (signer : Signer) (cache : Cache) (hellos : List (Bytes × Hello))
    → Runs group_do
    → IsSound cache
    → All (λ x. IsRegular x.1) hellos
    → All IsProper (handshake_all group_do signer cache hellos)
unfolding handshake_all handshake
handshake_all-IsProper group_do signer cache [] runs sound regular = tt
handshake_all-IsProper group_do signer cache ((host, hello) ∷ hellos) runs sound (r, regular) =
    let (sound', proper) =
      asks_for-IsProper group_do signer host hello cache hello.refused runs sound r in
    (
      proper,
      handshake_all-IsProper group_do signer (handshake group_do signer host hello cache).0 hellos
          runs sound' regular,
    )
