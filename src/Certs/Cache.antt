-- ===== src/Certs/Cache.antt =====
-- GetOrCreateCert, proxy/internals/certs/certs.go, over the cache of leaf certificates.
-- singleflight's group.Do is a parameter, which takes the key and the function.
pub mod Sound
pub mod Served
use hallmaster_proxy.Base.{ℕ, Bool, true, false, Option, none, some, Result, ok, err, if◌then◌else◌}
use hallmaster_proxy.Text.{Bytes, equal}
use hallmaster_proxy.Certs.{Certificate, Signer, Draw, is_expiring_soon, create_certificate}

-- sync.Map, from hostnames to certificates
abbrev pub Cache : Type 0
Cache = Bytes → Option Certificate

abbrev pub Served : Type 0
Served = Cache × Result Bytes Certificate

abbrev pub Do : Type 0
Do = Bytes → (Cache → Served) → Cache → Served

-- The moments at which one call reads the clock, and what it draws for a new certificate.
pub record Call : Type 0 where
  pub first_look : ℕ
  pub second_look : ℕ
  pub created : ℕ
  pub draw : Draw

unfoldable pub stored : Cache → Bytes → Certificate → Cache
unfolding equal
stored cache hostname c key = if equal key hostname then some c else cache key

-- The cached certificate, unless it is about to expire.
unfoldable pub fresh : ℕ → Option Certificate → Option Certificate
unfolding is_expiring_soon
fresh now none = none
fresh now (some c) = if is_expiring_soon now (some c) then none else some c

unfoldable pub keep : Cache → Bytes → Result Bytes Certificate → Served
unfolding stored
keep cache hostname (err e) = (cache, err e)
keep cache hostname (ok c) = (stored cache hostname c, ok c)

pub cached_or : Served → Cache → Option Certificate → Served
cached_or otherwise cache none = otherwise
cached_or otherwise cache (some c) = (cache, ok c)

-- The function that group.Do runs.
unfoldable pub look_again : Signer → Call → Bytes → Cache → Served
unfolding fresh keep cached_or create_certificate
look_again signer call hostname cache =
    cached_or (keep cache hostname (create_certificate signer call.created hostname call.draw))
      cache (fresh call.second_look (cache hostname))

unfoldable pub get_or_create : Do → Signer → Call → Bytes → Cache → Served
unfolding look_again fresh cached_or
get_or_create group_do signer call hostname cache =
    cached_or (group_do hostname (look_again signer call hostname) cache) cache
      (fresh call.first_look (cache hostname))
