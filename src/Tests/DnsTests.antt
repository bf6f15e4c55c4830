-- ===== src/Tests/DnsTests.antt =====
-- Resolved addresses.
use mathlib.Core.List.{Memᴰ}
use hallmaster_proxy.Base.{List, [], ◌∷◌, ok, ◌≡◌, refl, sym, subst, arith}
use hallmaster_proxy.Text.{Bytes, codes}
use hallmaster_proxy.Net.{has_byte, split_host_port, join_host_port}
use hallmaster_proxy.Dns.{LookupHost, target, resolve}
use hallmaster_proxy.Dns.Address.{IsAddress, resolve-split}

-- A name server with one address for every name.
abbrev pub one_address : LookupHost
one_address name = ok (codes "2606:4700::1" ∷ [])

pub one_address-IsAddress :
    (name : Bytes) (ips : List Bytes)
    → one_address name ≡ ok ips
    → (ip : Bytes) → Memᴰ ip ips
    → IsAddress ip
unfolding has_byte
one_address-IsAddress name [] e ip m = cc
one_address-IsAddress name (x ∷ ips) e ip m = is_first (x ∷ ips) (ground arith) ip m
  where
    is_first :
        (l : List Bytes) → l ≡ codes "2606:4700::1" ∷ [] → (ip : Bytes) → Memᴰ ip l → IsAddress ip
    is_first l e ip m = subst (λ (k : List Bytes). Memᴰ ip k → IsAddress ip) (sym e) only m
      where
        only : Memᴰ ip (codes "2606:4700::1" ∷ []) → IsAddress ip
        only (Memᴰ.head h) = rw h (refl, refl)
        only (Memᴰ.tail n) = elim n [ ]

pub resolved : resolve one_address (codes "discord.com:8443") ≡ ok (codes "[2606:4700::1]:8443")
unfolding resolve split_host_port join_host_port
resolved = refl

resolve-split_test :
    (ip : Bytes) × (ips : List Bytes) × (one_address (target (codes "discord.com:8443")).0
      ≡ ok (ip ∷ ips))
    × (split_host_port (codes "[2606:4700::1]:8443")
        ≡ ok (ip, (target (codes "discord.com:8443")).1))
resolve-split_test =
    resolve-split one_address (codes "discord.com:8443") one_address-IsAddress resolved
