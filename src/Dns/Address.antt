-- ===== src/Dns/Address.antt =====
-- The address that the resolver returns.
use mathlib.Core.List.{Memᴰ}
use hallmaster_proxy.Base.{false, List, [], ◌∷◌, Result, ok, err, ◌≡◌, refl, ok-injective, subst}
use hallmaster_proxy.Text.{Bytes}
use hallmaster_proxy.Net.{AddrError, has_byte, split_host_port}
use hallmaster_proxy.Net.Split.{IsPlain, split-join}
use hallmaster_proxy.Net.Port.{split-IsPlain}
use hallmaster_proxy.Dns.{LookupHost, LookupError, split_or_default, target, pick, resolve}

-- What net.Resolver documents of its answers: textual addresses, which hold no bracket.
abbrev pub IsAddress : Bytes → Type 0
IsAddress ip = (has_byte ip b'[' ≡ false) × (has_byte ip b']' ≡ false)

split_or_default-IsPlain :
    (host_port : Bytes) (r : Result AddrError (Bytes × Bytes))
    → split_host_port host_port ≡ r
    → IsPlain (split_or_default host_port r).1
unfolding has_byte
split_or_default-IsPlain host_port (ok (host, port)) h = split-IsPlain host_port h
split_or_default-IsPlain host_port (err e) h = record {
  no_colon = refl;
  no_open = refl;
  no_close = refl;
}

pub target-IsPlain : (host_port : Bytes) → IsPlain (target host_port).1
unfolding target
target-IsPlain host_port = split_or_default-IsPlain host_port (split_host_port host_port) refl

pick-split :
    (host port : Bytes) (answer : Result LookupError (List Bytes)) (address : Bytes)
    → IsPlain port
    → ((ips : List Bytes) → answer ≡ ok ips → (ip : Bytes) → Memᴰ ip ips → IsAddress ip)
    → pick host port answer ≡ ok address
    → (ip : Bytes) × (ips : List Bytes) × (answer ≡ ok (ip ∷ ips))
      × (split_host_port address ≡ ok (ip, port))
unfolding pick
pick-split host port (err e) address p valid h = cc
pick-split host port (ok []) address p valid h = cc
pick-split host port (ok (ip ∷ ips)) address p valid h =
    let (no_open, no_close) = valid (ip ∷ ips) refl ip (Memᴰ.head refl) in
    (
      ip,
      ips,
      refl,
      subst (λ a. split_host_port a ≡ ok (ip, port)) (ok-injective h)
          (split-join ip port no_open no_close p),
    )

-- When `Resolve` succeeds and the lookup answers with textual addresses, the lookup had at least
-- one answer and the result splits into the first answer and the requested port (443 if there was
-- none).
pub resolve-split :
    (lookup_host : LookupHost) (host_port : Bytes) {address : Bytes}
    → ((name : Bytes) (ips : List Bytes)
        → lookup_host name ≡ ok ips
        → (ip : Bytes) → Memᴰ ip ips
        → IsAddress ip)
    → resolve lookup_host host_port ≡ ok address
    → (ip : Bytes) × (ips : List Bytes) × (lookup_host (target host_port).0 ≡ ok (ip ∷ ips))
      × (split_host_port address ≡ ok (ip, (target host_port).1))
unfolding resolve
resolve-split lookup_host host_port {address} valid h =
    let (host, port) = target host_port in
    pick-split host port (lookup_host host) address (target-IsPlain host_port) (valid host) h
