-- ===== src/Dns.antt =====
-- proxy/internals/dnsbypass/resolver.go. The lookups of net.Resolver against the configured
-- server are a parameter.
pub mod Address
use hallmaster_proxy.Base.{ℕ, Bool, true, List, [], ◌∷◌, Result, ok, err}
use hallmaster_proxy.Text.{Bytes, codes}
use hallmaster_proxy.Net.{AddrError, split_host_port, join_host_port}

pub data LookupError : Type 0 where
  timeout not_found refused : LookupError

-- (*net.Resolver).LookupHost under one context
abbrev pub LookupHost : Type 0
LookupHost = Bytes → Result LookupError (List Bytes)

-- "could not resolve %s externally: %v"; no cause where the list was empty
pub data ResolveError : Type 0 where
  failed : Bytes → LookupError → ResolveError
  empty : Bytes → ResolveError

abbrev split_or_default : Bytes → Result AddrError (Bytes × Bytes) → Bytes × Bytes
split_or_default host_port (ok (host, port)) = (host, port)
split_or_default host_port (err e) = (host_port, codes "443")

-- The host to look up and the port to dial.
unfoldable pub target : Bytes → Bytes × Bytes
target host_port = split_or_default host_port (split_host_port host_port)

pick : Bytes → Bytes → Result LookupError (List Bytes) → Result ResolveError Bytes
pick host port (err e) = err (failed host e)
pick host port (ok []) = err (empty host)
pick host port (ok (ip ∷ ips)) = ok (join_host_port ip port)

-- (*ExternalResolver).Resolve
unfoldable pub resolve : LookupHost → Bytes → Result ResolveError Bytes
unfolding pick target
resolve lookup_host host_port =
    let (host, port) = target host_port in pick host port (lookup_host host)

-- What net.Dialer is asked for.
pub record DnsDial : Type 0 where
  pub network : Bytes
  pub address : Bytes
  pub timeout : ℕ

-- The net.Resolver that an ExternalResolver holds; `dial` is given a network and an address.
pub record ExternalResolver : Type 0 where
  pub prefer_go : Bool
  pub dial : Bytes → Bytes → DnsDial

unfoldable pub new_external_resolver : Bytes → ℕ → ExternalResolver
new_external_resolver server limit = record {
  prefer_go = true;
  dial = λ network address. record { network = codes "udp"; address = server; timeout = limit };
}
