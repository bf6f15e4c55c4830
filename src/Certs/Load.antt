-- ===== src/Certs/Load.antt =====
-- New, getPublicKey and getPrivateKey, proxy/internals/certs/certs.go: loading the root CA. Files
-- and the parsers of Go's crypto packages are parameters.
use hallmaster_proxy.Base.{
  ℕ, ◌%◌, true, not, Option, none, some, Result, ok, err, ◌==◌, if◌then◌else◌, ◌≡◌, refl, ◌↔◌, ◌⊎◌,
  arith, inl, inr, Result-cases, Option-cases,
}
use hallmaster_proxy.Text.{Bytes, codes, equal, contains}

-- What x509.ParsePKCS8PrivateKey may return.
pub data PrivateKey : Type 0 where
  rsa : ℕ → PrivateKey
  other : PrivateKey

pub data LoadError : Type 0 where
  io : Bytes → LoadError
  permissive_mode : ℕ → LoadError
  invalid_pem : LoadError
  invalid_certificate : Bytes → LoadError
  invalid_key : Bytes → Bytes → LoadError
  not_rsa : LoadError

-- The libraries: os, encoding/pem (the type and the bytes of the first block), crypto/x509. A
-- certificate is known by a number, like an RSA key.
pub record Loader : Type 0 where
  pub stat_perm : Bytes → Result Bytes ℕ
  pub read_file : Bytes → Result Bytes Bytes
  pub decode_pem : Bytes → Option (Bytes × Bytes)
  pub parse_certificate : Bytes → Result Bytes ℕ
  pub parse_pkcs1 : Bytes → Result Bytes ℕ
  pub parse_pkcs8 : Bytes → Result Bytes PrivateKey

-- perm & 0o077: the bits of the group and of others
abbrev pub shared_bits : ℕ → ℕ
shared_bits perm = perm % 64

parsed_certificate : Result Bytes ℕ → Result LoadError ℕ
parsed_certificate (ok c) = ok c
parsed_certificate (err e) = err (invalid_certificate e)

certificate_block : Loader → Option (Bytes × Bytes) → Result LoadError ℕ
unfolding parsed_certificate equal
certificate_block loader none = err invalid_pem
certificate_block loader (some (kind, der)) =
    if equal kind (codes "CERTIFICATE")
    then parsed_certificate (loader.parse_certificate der)
    else err invalid_pem

certificate_file : Loader → Result Bytes Bytes → Result LoadError ℕ
unfolding certificate_block
certificate_file loader (err e) = err (io e)
certificate_file loader (ok pem) = certificate_block loader (loader.decode_pem pem)

unfoldable pub get_public_key : Loader → Bytes → Result LoadError ℕ
unfolding certificate_file
get_public_key loader path = certificate_file loader (loader.read_file path)

pkcs8_key : Bytes → Result Bytes PrivateKey → Result LoadError ℕ
pkcs8_key e (err e') = err (invalid_key e e')
pkcs8_key e (ok (rsa key)) = ok key
pkcs8_key e (ok other) = err not_rsa

pkcs1_key : Result Bytes PrivateKey → Result Bytes ℕ → Result LoadError ℕ
unfolding pkcs8_key
pkcs1_key pkcs8 (ok key) = ok key
pkcs1_key pkcs8 (err e) = pkcs8_key e pkcs8

key_block : Loader → Option (Bytes × Bytes) → Result LoadError ℕ
unfolding pkcs1_key contains
key_block loader none = err invalid_pem
key_block loader (some (kind, der)) =
    if contains kind (codes "PRIVATE KEY")
    then pkcs1_key (loader.parse_pkcs8 der) (loader.parse_pkcs1 der)
    else err invalid_pem

key_file : Loader → Result Bytes Bytes → Result LoadError ℕ
unfolding key_block
key_file loader (err e) = err (io e)
key_file loader (ok pem) = key_block loader (loader.decode_pem pem)

guarded_key : Loader → Bytes → Result Bytes ℕ → Result LoadError ℕ
unfolding key_file
guarded_key loader path (err e) = err (io e)
guarded_key loader path (ok perm) =
    if not (shared_bits perm == 0)
    then err (permissive_mode perm)
    else key_file loader (loader.read_file path)

unfoldable pub get_private_key : Loader → Bytes → Result LoadError ℕ
unfolding guarded_key
get_private_key loader path = guarded_key loader path (loader.stat_perm path)

with_ca_cert : Result LoadError ℕ → Result LoadError ℕ → Result LoadError (ℕ × ℕ)
with_ca_cert (err e) key = err e
with_ca_cert (ok cert) (err e) = err e
with_ca_cert (ok cert) (ok key) = ok (cert, key)

-- New: the CA certificate and its key
unfoldable pub new : Loader → Bytes → Bytes → Result LoadError (ℕ × ℕ)
unfolding with_ca_cert get_public_key get_private_key
new loader ca_cert_path ca_key_path =
    with_ca_cert (get_public_key loader ca_cert_path) (get_private_key loader ca_key_path)

-- A key in a block, under the first of the two syntaxes that reads it.
abbrev pub IsKeyIn : Loader → Bytes → ℕ → Type 0
IsKeyIn loader der key =
    (loader.parse_pkcs1 der ≡ ok key)
    ⊎ ((e : Bytes) × (loader.parse_pkcs1 der ≡ err e) × (loader.parse_pkcs8 der ≡ ok (rsa key)))

-- The file at `path` is shared with nobody, and its first PEM block holds the key.
pub record IsKeyFile (loader : Loader) (path : Bytes) (key : ℕ) : Type 0 where
  pub perm : ℕ
  pub stats : loader.stat_perm path ≡ ok perm
  pub private : shared_bits perm ≡ 0
  pub pem : Bytes
  pub reads : loader.read_file path ≡ ok pem
  pub kind : Bytes
  pub der : Bytes
  pub decodes : loader.decode_pem pem ≡ some (kind, der)
  pub is_private_key : contains kind (codes "PRIVATE KEY") ≡ true
  pub holds : IsKeyIn loader der key

pkcs_key_iff :
    (loader : Loader) (der : Bytes) (key : ℕ)
    → (pkcs1_key (loader.parse_pkcs8 der) (loader.parse_pkcs1 der) ≡ ok key)
      ↔ IsKeyIn loader der key
unfolding pkcs1_key pkcs8_key
pkcs_key_iff loader der key = ground arith

-- The key that is loaded, and the conditions for it.
opened :
    (loader : Loader) (path : Bytes) (key : ℕ)
    → get_private_key loader path ≡ ok key
    → IsKeyFile loader path key
unfolding get_private_key guarded_key key_file key_block
opened loader path key h = elim (Result-cases (loader.stat_perm path)) [
  | inr (e, s) ↦ ground arith
  | inl (perm, s) ↦ elim (Result-cases (loader.read_file path)) [
    | inr (e, r) ↦ ground arith
    | inl (pem, r) ↦ elim (Option-cases (loader.decode_pem pem)) [
      | inl d ↦ ground arith
      | inr ((kind, der), d) ↦ record {
        perm = perm;
        stats = s;
        private = ground arith;
        pem = pem;
        reads = r;
        kind = kind;
        der = der;
        decodes = d;
        is_private_key = ground arith;
        holds = (pkcs_key_iff loader der key).0 (ground arith);
      }
    ]
  ]
]

-- The private key loads exactly from a file that neither the group nor others may touch, whose
-- first PEM block is a private key in PKCS#1 or, where that fails to parse, an RSA key in PKCS#8.
pub get_private_key_iff :
    (loader : Loader) (path : Bytes) (key : ℕ)
    → (get_private_key loader path ≡ ok key) ↔ IsKeyFile loader path key
unfolding get_private_key guarded_key key_file key_block
get_private_key_iff loader path key = (
  opened loader path key,
  λ file.
      rw (file.stats, file.private, file.reads, file.decodes, file.is_private_key)
        ((pkcs_key_iff loader file.der key).1 file.holds),
)

pub get_public_key_lem :
    (loader : Loader) (path pem der : Bytes) (c : ℕ)
    → loader.read_file path ≡ ok pem
    → loader.decode_pem pem ≡ some (codes "CERTIFICATE", der)
    → loader.parse_certificate der ≡ ok c
    → get_public_key loader path ≡ ok c
unfolding get_public_key certificate_file certificate_block parsed_certificate equal
get_public_key_lem loader path pem der c reads decodes parses = rw (reads, decodes, parses) refl

pub new_lem :
    (loader : Loader) (cert_path key_path : Bytes) (c key : ℕ)
    → get_public_key loader cert_path ≡ ok c
    → get_private_key loader key_path ≡ ok key
    → new loader cert_path key_path ≡ ok (c, key)
unfolding new with_ca_cert
new_lem loader cert_path key_path c key cert_loads key_loads = rw (cert_loads, key_loads) refl
