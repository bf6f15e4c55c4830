-- ===== src/Certs/Cache/Served.antt =====
-- What GetOrCreateCert hands out.
use hallmaster_proxy.Base.{
  ℕ, ◌≤◌, false, some, Result, ok, err, ◌≡◌, refl, ok-injective, arith, inl, inr, subst,
  Option-cases,
}
use hallmaster_proxy.Text.{Bytes, equal}
use hallmaster_proxy.Certs.{Certificate, Signer, is_expiring_soon, create_certificate}
use hallmaster_proxy.Certs.Cache.{
  Cache, Call, Do, Served, fresh, keep, cached_or, look_again, get_or_create, stored,
}
use hallmaster_proxy.Certs.Cache.Sound.{
  IsFor, Lasts, IsSound, IsNew, create-IsNew, fresh-some, Lasts-of, Lasts-earlier, stored-here,
  stored-IsSound,
}

-- Documented: Do executes the function, and returns its results.
abbrev pub Runs : Do → Type 0
Runs group_do =
    (key : Bytes) (fn : Cache → Served) (cache : Cache) → group_do key fn cache ≡ fn cache

-- What one call has to show for itself: the cache afterwards and the result.
pub record IsServed (call : Call) (hostname : Bytes) (cache : Cache) (s : Served) : Type 0 where
  pub sound : IsSound s.0
  -- a certificate that is handed out is cached, is for the hostname, and lasts for another day
  pub handed_out :
      (c : Certificate)
      → s.1 ≡ ok c
      → (s.0 hostname ≡ some c) × IsFor hostname c × Lasts call.first_look c
  -- an error leaves the cache as it was
  pub failed : (e : Bytes) → s.1 ≡ err e → s.0 ≡ cache
  -- other hostnames keep their certificates
  pub others : (key : Bytes) → equal key hostname ≡ false → s.0 key ≡ cache key

cached-IsServed :
    (call : Call) (hostname : Bytes) (cache : Cache) (c : Certificate)
    → IsSound cache
    → cache hostname ≡ some c
    → Lasts call.first_look c
    → IsServed call hostname cache (cache, ok c)
cached-IsServed call hostname cache c sound found lasts = record {
  sound = sound;
  handed_out = λ d e.
      subst (λ x. (cache hostname ≡ some x) × IsFor hostname x × Lasts call.first_look x)
        (ok-injective e) (found, sound hostname c found, lasts);
  failed = λ e h. refl;
  others = λ key h. refl;
}

keep-IsServed :
    (call : Call) (hostname : Bytes) (cache : Cache) (r : Result Bytes Certificate)
    → IsSound cache
    → ((c : Certificate) → r ≡ ok c → IsFor hostname c × Lasts call.first_look c)
    → IsServed call hostname cache (keep cache hostname r)
unfolding keep stored
keep-IsServed call hostname cache (err e) sound made = record {
  sound = sound;
  handed_out = λ c h. cc;
  failed = λ e h. refl;
  others = λ key h. refl;
}
keep-IsServed call hostname cache (ok c) sound made = record {
  sound = stored-IsSound cache hostname c sound (made c refl).0;
  handed_out = λ d e.
      subst
        (λ x.
          (stored cache hostname c hostname ≡ some x) × IsFor hostname x × Lasts call.first_look x)
        (ok-injective e) (stored-here cache hostname c, (made c refl).0, (made c refl).1);
  failed = λ e h. cc;
  others = λ key h. ground arith;
}

made-Lasts :
    (now created : ℕ) (hostname : Bytes) (c : Certificate)
    → now ≤ created
    → IsNew created hostname c
    → IsFor hostname c × Lasts now c
made-Lasts now created hostname c le (l, e, is_leaf, until) =
    ((l, e, is_leaf), (l, e, omega (arith, until)))

look_again-IsServed :
    (signer : Signer) (call : Call) (hostname : Bytes) (cache : Cache)
    → call.first_look ≤ call.second_look
    → call.second_look ≤ call.created
    → IsSound cache
    → IsServed call hostname cache (look_again signer call hostname cache)
unfolding look_again cached_or
look_again-IsServed signer call hostname cache le le' sound =
    elim (Option-cases (fresh call.second_look (cache hostname))) [
      | inr (c, found) ↦
          let (cached, lasts) = fresh-some call.second_look (cache hostname) found in
          rw found (
            cached-IsServed call hostname cache c sound cached (
              Lasts-earlier c le
                (Lasts-of call.second_look hostname c (sound hostname c cached) lasts)))
      | inl none_found ↦ rw none_found (
          keep-IsServed call hostname cache
            (create_certificate signer call.created hostname call.draw) sound
            (λ c h.
              made-Lasts call.first_look call.created hostname c (omega (arith, le, le'))
                (create-IsNew signer call.created hostname call.draw h)))
    ]

-- GetOrCreateCert, where singleflight runs the function (a goroutine that meets no call in flight)
-- and the clock does not go back: on a cache of certificates that are each for their hostname, what
-- is handed out is cached, is for the hostname less its port, and lasts for another day; the cache
-- stays of that kind, an error leaves it alone, and the other hostnames keep theirs.
pub get_or_create-IsServed :
    (group_do : Do) (signer : Signer) (call : Call) (hostname : Bytes) (cache : Cache)
    → Runs group_do
    → call.first_look ≤ call.second_look
    → call.second_look ≤ call.created
    → IsSound cache
    → IsServed call hostname cache (get_or_create group_do signer call hostname cache)
unfolding get_or_create cached_or
get_or_create-IsServed group_do signer call hostname cache runs le le' sound =
    elim (Option-cases (fresh call.first_look (cache hostname))) [
      | inr (c, found) ↦
          let (cached, lasts) = fresh-some call.first_look (cache hostname) found in
          rw found (
            cached-IsServed call hostname cache c sound cached
              (Lasts-of call.first_look hostname c (sound hostname c cached) lasts))
      | inl none_found ↦
          rw (none_found, runs hostname (look_again signer call hostname) cache)
            (look_again-IsServed signer call hostname cache le le' sound)
    ]

serve_cached :
    (group_do : Do) (signer : Signer) (call : Call) (hostname : Bytes) (cache : Cache)
    (c : Certificate)
    → cache hostname ≡ some c
    → Lasts call.first_look c
    → get_or_create group_do signer call hostname cache ≡ (cache, ok c)
unfolding get_or_create cached_or fresh is_expiring_soon
serve_cached group_do signer call hostname cache c found (l, e, lasts) =
    rw (found, e) (ground arith)

-- A call made while the certificate that was handed out before still lasts for a day gets that one
-- again, whatever it would draw, and leaves the cache alone.
pub get_or_create-again :
    (group_do : Do) (signer : Signer) (call later : Call) (hostname : Bytes) (cache : Cache)
    (c : Certificate)
    → Runs group_do
    → call.first_look ≤ call.second_look
    → call.second_look ≤ call.created
    → IsSound cache
    → (get_or_create group_do signer call hostname cache).1 ≡ ok c
    → Lasts later.first_look c
    → get_or_create group_do signer later hostname
        (get_or_create group_do signer call hostname cache).0
      ≡ ((get_or_create group_do signer call hostname cache).0, ok c)
get_or_create-again group_do signer call later hostname cache c runs le le' sound handed lasts =
    let served = get_or_create-IsServed group_do signer call hostname cache runs le le' sound in
    serve_cached group_do signer later hostname
      (get_or_create group_do signer call hostname cache).0 c (served.handed_out c handed).0 lasts
