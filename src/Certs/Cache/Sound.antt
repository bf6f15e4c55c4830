-- ===== src/Certs/Cache/Sound.antt =====
-- Certificates that are for their hostname, and caches of them.
use hallmaster_proxy.Base.{
  ℕ, ◌+◌, ◌≤◌, ◌<◌, false, [], ◌∷◌, Option, none, some, Result, ok, err, ◌≡◌, refl, sym, arith, inl,
  inr, subst, Bool-cases,
}
use hallmaster_proxy.Text.{Bytes, equal}
use hallmaster_proxy.Text.Affix.{equal_iff, equal_refl}
use hallmaster_proxy.Certs.{
  server_auth, Certificate, Leaf, Signer, Draw, is_expiring_soon, create_certificate, signed,
  with_key, with_serial, template, server_name_from_host, leaf_cert_renew_before,
  leaf_cert_validity,
}
use hallmaster_proxy.Certs.Cache.{Cache, fresh, stored}

-- A parsed leaf for the hostname, less its port: a server's, and no CA's.
pub record IsLeaf (hostname : Bytes) (l : Leaf) : Type 0 where
  pub common_name : l.common_name ≡ server_name_from_host hostname
  pub dns_names : l.dns_names ≡ server_name_from_host hostname ∷ []
  pub is_ca : l.is_ca ≡ false
  pub ext_key_usage : l.ext_key_usage ≡ server_auth ∷ []

abbrev pub IsFor : Bytes → Certificate → Type 0
IsFor hostname c = (l : Leaf) × (c.leaf ≡ some l) × IsLeaf hostname l

-- The certificate is valid for at least another day at `now`.
abbrev pub Lasts : ℕ → Certificate → Type 0
Lasts now c = (l : Leaf) × (c.leaf ≡ some l) × (now + leaf_cert_renew_before ≤ l.not_after)

abbrev pub IsSound : Cache → Type 0
IsSound cache = (hostname : Bytes) (c : Certificate) → cache hostname ≡ some c → IsFor hostname c

-- The leaf of a new certificate.
signed-leaf :
    (signer : Signer) (l : Leaf) (r : Result Bytes Bytes) {c : Certificate}
    → signed signer l r ≡ ok c
    → c.leaf ≡ some l
unfolding signed
signed-leaf signer l (err e) h = ground arith
signed-leaf signer l (ok der) h = ground arith

template-IsLeaf :
    (signer : Signer) (now : ℕ) (hostname : Bytes) (key serial : ℕ)
    → IsLeaf hostname (template signer now hostname key serial)
unfolding template server_name_from_host
template-IsLeaf signer now hostname key serial = record {
  common_name = refl;
  dns_names = refl;
  is_ca = refl;
  ext_key_usage = refl;
}

abbrev pub IsNew : ℕ → Bytes → Certificate → Type 0
IsNew now hostname c =
    (l : Leaf) × (c.leaf ≡ some l) × IsLeaf hostname l × (l.not_after ≡ now + leaf_cert_validity)

with_key-IsNew :
    (signer : Signer) (now : ℕ) (hostname : Bytes) (key serial : Result Bytes ℕ) {c : Certificate}
    → with_key signer now hostname key serial ≡ ok c
    → IsNew now hostname c
unfolding with_key with_serial template server_name_from_host
with_key-IsNew signer now hostname (err e) serial h = ground arith
with_key-IsNew signer now hostname (ok key) (err e) h = ground arith
with_key-IsNew signer now hostname (ok key) (ok serial) h =
    let l = template signer now hostname key serial in
    (
      l,
      signed-leaf signer l (signer.sign l) h,
      template-IsLeaf signer now hostname key serial,
      refl,
    )

pub create-IsNew :
    (signer : Signer) (now : ℕ) (hostname : Bytes) (draw : Draw) {c : Certificate}
    → create_certificate signer now hostname draw ≡ ok c
    → IsNew now hostname c
unfolding create_certificate with_key
create-IsNew signer now hostname draw h = with_key-IsNew signer now hostname draw.key draw.serial h

pub fresh-some :
    (now : ℕ) (o : Option Certificate) {c : Certificate}
    → fresh now o ≡ some c
    → (o ≡ some c) × (is_expiring_soon now (some c) ≡ false)
unfolding fresh is_expiring_soon
fresh-some now none h = ground arith
fresh-some now (some c) h = ground arith

pub fresh-none :
    (now : ℕ) (o : Option Certificate) (c : Certificate) (l : Leaf)
    → o ≡ some c
    → c.leaf ≡ some l
    → fresh now o ≡ none
    → l.not_after < now + leaf_cert_renew_before
unfolding fresh is_expiring_soon
fresh-none now none c l p q h = cc
fresh-none now (some d) c l p q h = ground arith

pub Lasts-of :
    (now : ℕ) (hostname : Bytes) (c : Certificate)
    → IsFor hostname c
    → is_expiring_soon now (some c) ≡ false
    → Lasts now c
unfolding is_expiring_soon
Lasts-of now hostname c (l, e, is_leaf) h = (l, e, ground arith)

pub Lasts-earlier : {a b : ℕ} (c : Certificate) → a ≤ b → Lasts b c → Lasts a c
Lasts-earlier c le (l, e, lasts) = (l, e, omega arith)

pub stored-here :
    (cache : Cache) (hostname : Bytes) (c : Certificate) → stored cache hostname c hostname ≡ some c
unfolding stored
stored-here cache hostname c = rw (equal_refl hostname) refl

pub stored-IsSound :
    (cache : Cache) (hostname : Bytes) (c : Certificate)
    → IsSound cache
    → IsFor hostname c
    → IsSound (stored cache hostname c)
unfolding stored
stored-IsSound cache hostname c sound is_for key d h = elim (Bool-cases (equal key hostname)) [
  | inl same ↦
      let here : c ≡ d = ground arith in
      subst (λ k. IsFor k d) (sym ((equal_iff key hostname).0 same))
        (subst (IsFor hostname) here is_for)
  | inr other ↦ sound key d (ground arith)
]
