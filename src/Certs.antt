-- ===== src/Certs.antt =====
-- proxy/internals/certs/certs.go: leaf certificates, their cache, and the loading of the root CA.
-- Keys, signatures and PEM are done by Go's crypto packages, which enter as a signer and as the
-- outcomes of its calls.
pub mod Cache
pub mod Load
pub mod Group
use hallmaster_proxy.Base.{
  ℕ, ◌+◌, ◌-◌, ◌*◌, Bool, true, false, List, [], ◌∷◌, Option, none, some, Result, ok, err, ltb,
  if◌then◌else◌,
}
use hallmaster_proxy.Text.{Bytes}
use hallmaster_proxy.Net.{AddrError, split_host_port}

-- Times and durations in seconds. Times are counted from a moment long enough in the past.
abbrev pub hour : ℕ
hour = 3600

abbrev pub leaf_cert_validity : ℕ
leaf_cert_validity = 7 * 24 * hour

abbrev pub leaf_cert_renew_before : ℕ
leaf_cert_renew_before = 24 * hour

abbrev name_or : Bytes → Result AddrError (Bytes × Bytes) → Bytes
name_or hostname (ok (host, port)) = host
name_or hostname (err e) = hostname

unfoldable pub server_name_from_host : Bytes → Bytes
server_name_from_host hostname = name_or hostname (split_host_port hostname)

-- x509.KeyUsage's bits and x509.ExtKeyUsage, as far as they are used
pub data KeyUsage : Type 0 where
  cert_sign : KeyUsage
  digital_signature : KeyUsage
  key_encipherment : KeyUsage

pub data ExtKeyUsage : Type 0 where
  server_auth : ExtKeyUsage

-- The x509 template, with the key pair it is for.
pub record Leaf : Type 0 where
  pub serial : ℕ
  pub key : ℕ
  pub common_name : Bytes
  pub dns_names : List Bytes
  pub not_before : ℕ
  pub not_after : ℕ
  pub key_usage : List KeyUsage
  pub ext_key_usage : List ExtKeyUsage
  pub basic_constraints_valid : Bool
  pub is_ca : Bool
  pub subject_key_id : Bytes
  pub authority_key_id : Bytes

-- tls.Certificate: the chain (the leaf, then the CA), and the parsed leaf if there is one
pub record Certificate : Type 0 where
  pub chain : List Bytes
  pub leaf : Option Leaf

-- isExpiringSoon at time `now`; the argument is a pointer. time.Until may be negative.
unfoldable pub is_expiring_soon : ℕ → Option Certificate → Bool
is_expiring_soon now none = true
is_expiring_soon now (some c) = elim c.leaf [
  | none ↦ true
  | some l ↦ ltb l.not_after (now + leaf_cert_renew_before)
]

-- x509.CreateCertificate under the CA with all that stands around it: the DER bytes, or the error
-- of the first step that failed. `hash_key` is the SHA-1 of a marshalled public key.
pub record Signer : Type 0 where
  pub hash_key : ℕ → Bytes
  pub ca_raw : Bytes
  pub ca_key_id : Bytes
  pub sign : Leaf → Result Bytes Bytes

-- The key and the serial number drawn for one certificate; a key that cannot be marshalled counts
-- as an error of its generation.
pub record Draw : Type 0 where
  pub key : Result Bytes ℕ
  pub serial : Result Bytes ℕ

pub template : Signer → ℕ → Bytes → ℕ → ℕ → Leaf
unfolding server_name_from_host
template signer now hostname key serial = record {
  serial = serial;
  key = key;
  common_name = server_name_from_host hostname;
  dns_names = server_name_from_host hostname ∷ [];
  not_before = now - hour;
  not_after = now + leaf_cert_validity;
  key_usage = digital_signature ∷ key_encipherment ∷ [];
  ext_key_usage = server_auth ∷ [];
  basic_constraints_valid = true;
  is_ca = false;
  subject_key_id = signer.hash_key key;
  authority_key_id = signer.ca_key_id;
}

signed : Signer → Leaf → Result Bytes Bytes → Result Bytes Certificate
signed signer leaf (err e) = err e
signed signer leaf (ok der) = ok (record { chain = der ∷ signer.ca_raw ∷ []; leaf = some leaf })

with_serial : Signer → ℕ → Bytes → ℕ → Result Bytes ℕ → Result Bytes Certificate
unfolding signed template
with_serial signer now hostname key (err e) = err e
with_serial signer now hostname key (ok serial) =
    let leaf = template signer now hostname key serial in signed signer leaf (signer.sign leaf)

with_key : Signer → ℕ → Bytes → Result Bytes ℕ → Result Bytes ℕ → Result Bytes Certificate
unfolding with_serial
with_key signer now hostname (err e) serial = err e
with_key signer now hostname (ok key) serial = with_serial signer now hostname key serial

-- createCertificate
unfoldable pub create_certificate : Signer → ℕ → Bytes → Draw → Result Bytes Certificate
unfolding with_key
create_certificate signer now hostname draw = with_key signer now hostname draw.key draw.serial
