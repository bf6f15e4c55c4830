-- ===== src/Internaltest/Ca.antt =====
-- ca.go of proxy/internals/internaltest: a CA written to files, and leaf certificates under it. The
-- crypto and PEM packages are parameters, as for the loading of a CA.
pub mod Written
pub mod Signed
use hallmaster_proxy.Base.{
  ℕ, ◌+◌, ◌-◌, ◌*◌, Bool, true, false, List, [], ◌∷◌, ◌++◌, Option, none, some, Result, ok, err,
  if◌then◌else◌,
}
use hallmaster_proxy.Text.{Bytes, codes, equal}
use hallmaster_proxy.Certs.{
  hour, KeyUsage, cert_sign, digital_signature, key_encipherment, ExtKeyUsage, server_auth,
}
use hallmaster_proxy.Certs.Load.{Loader}

-- A file: its permission bits and its contents.
pub record File : Type 0 where
  pub mode : ℕ
  pub contents : Bytes

abbrev pub Files : Type 0
Files = Bytes → Option File

unfoldable pub put : Files → Bytes → File → Files
unfolding equal
put files path file other = if equal other path then some file else files other

abbrev not_found : Bytes
not_found = codes "no such file or directory"

abbrev pub perm_of : Option File → Result Bytes ℕ
perm_of none = err not_found
perm_of (some file) = ok file.mode

abbrev pub contents_of : Option File → Result Bytes Bytes
contents_of none = err not_found
contents_of (some file) = ok file.contents

-- The libraries on these files.
abbrev pub loader_on : Loader → Files → Loader
loader_on loader files = record loader {
  stat_perm = λ path. perm_of (files path);
  read_file = λ path. contents_of (files path);
}

-- x509.Certificate as a template. The subject key is the one of the call.
pub record Template : Type 0 where
  pub serial : ℕ
  pub common_name : Bytes
  pub dns_names : List Bytes
  pub not_before : ℕ
  pub not_after : ℕ
  pub key_usage : List KeyUsage
  pub ext_key_usage : List ExtKeyUsage
  pub basic_constraints_valid : Bool
  pub is_ca : Bool

-- The parent in x509.CreateCertificate: the template itself, or a parsed certificate.
pub data Parent : Type 0 where
  itself : Parent
  parsed : ℕ → Parent

-- What else the libraries do: x509.CreateCertificate with the subject's key and the parent's, the
-- PEM encoding of a type and bytes, x509.MarshalPKCS1PrivateKey, the Raw of a certificate, the mode
-- of a new file under the umask, and the error of a write.
pub record Tools : Type 0 where
  pub loader : Loader
  pub create_certificate : Template → Parent → ℕ → ℕ → Result Bytes Bytes
  pub encode_pem : Bytes → Bytes → Bytes
  pub marshal_pkcs1 : ℕ → Bytes
  pub raw : ℕ → Bytes
  pub new_mode : ℕ → ℕ
  pub write_error : Bytes → Option Bytes

-- t.Fatalf, or a panic.
pub data Failure : Type 0 where
  fatal : Bytes → Bytes → Failure
  panic : Failure

infixl 5 ◌>>=◌ ◌>>◌
abbrev pub ◌>>=◌ : {A B : Type 0} → Result Failure A → (A → Result Failure B) → Result Failure B
◌>>=◌ (ok a) f = f a
◌>>=◌ (err e) f = err e

abbrev pub ◌>>◌ : {A B : Type 0} → Result Failure A → Result Failure B → Result Failure B
a >> b = a >>= λ _. b

abbrev pub or_fatal : {A : Type 0} → Bytes → Result Bytes A → Result Failure A
or_fatal step (ok a) = ok a
or_fatal step (err e) = err (fatal step e)

abbrev pub or_panic : {A : Type 0} → Option A → Result Failure A
or_panic (some a) = ok a
or_panic none = err panic

abbrev pub done_or_fatal : Bytes → Option Bytes → Result Failure Unit
done_or_fatal step none = ok tt
done_or_fatal step (some e) = err (fatal step e)

-- filepath.Join with the name of a directory, which is clean.
abbrev pub in_dir : Bytes → Bytes → Bytes
in_dir dir name = dir ++ (codes "/" ++ name)

abbrev pub ca_template : ℕ → Template
ca_template now = record {
  serial = 1;
  common_name = codes "Hallmaster Test CA";
  dns_names = [];
  not_before = now - hour;
  not_after = now + 365 * 24 * hour;
  key_usage = cert_sign ∷ digital_signature ∷ [];
  ext_key_usage = [];
  basic_constraints_valid = true;
  is_ca = true;
}

-- os.WriteFile, of a file that is not there yet
abbrev pub new_file : Tools → ℕ → Bytes → File
new_file tools perm contents = record { mode = tools.new_mode perm; contents = contents }

-- The two files, written in turn.
abbrev pub with_ca_files : Tools → Bytes → Bytes → ℕ → Files → Files
with_ca_files tools dir der key files =
    put
      (put files (in_dir dir (codes "ca.crt"))
        (new_file tools 420 (tools.encode_pem (codes "CERTIFICATE") der)))
      (in_dir dir (codes "ca.pem"))
      (new_file tools 384 (tools.encode_pem (codes "RSA PRIVATE KEY") (tools.marshal_pkcs1 key)))

-- WriteTestCA; 420 is 0o644 and 384 is 0o600.
unfoldable pub write_test_ca :
    Tools → ℕ → Bytes → Result Bytes ℕ → Files → Result Failure (Files × Bytes × Bytes)
write_test_ca tools now dir draw files = do
  key ← or_fatal (codes "genkey") draw
  der ← or_fatal (codes "create cert") (tools.create_certificate (ca_template now) itself key key)
  done_or_fatal (codes "write cert") (tools.write_error (in_dir dir (codes "ca.crt")))
  done_or_fatal (codes "write key") (tools.write_error (in_dir dir (codes "ca.pem")))
  ok (
    with_ca_files tools dir der key files,
    in_dir dir (codes "ca.crt"),
    in_dir dir (codes "ca.pem"),
  )

-- tls.Certificate
pub record Issued : Type 0 where
  pub chain : List Bytes
  pub key : ℕ
  pub leaf : ℕ

abbrev pub head : List Bytes → Option Bytes
head [] = none
head (name ∷ names) = some name

abbrev pub leaf_template : ℕ → Bytes → List Bytes → Template
leaf_template now name names = record {
  serial = 2;
  common_name = name;
  dns_names = names;
  not_before = now - hour;
  not_after = now + 24 * hour;
  key_usage = digital_signature ∷ key_encipherment ∷ [];
  ext_key_usage = server_auth ∷ [];
  basic_constraints_valid = true;
  is_ca = false;
}

-- IssueLeaf
unfoldable pub issue_leaf :
    Tools → Files → ℕ → Bytes → Bytes → List Bytes → Result Bytes ℕ → Result Failure (Issued × ℕ)
issue_leaf tools files now cert_path key_path names draw = do
  cert_pem ← or_fatal (codes "read ca cert") (contents_of (files cert_path))
  cert_block ← or_panic (tools.loader.decode_pem cert_pem)
  ca_cert ← or_fatal (codes "parse ca cert") (tools.loader.parse_certificate cert_block.1)
  key_pem ← or_fatal (codes "read ca key") (contents_of (files key_path))
  key_block ← or_panic (tools.loader.decode_pem key_pem)
  ca_key ← or_fatal (codes "parse ca key") (tools.loader.parse_pkcs1 key_block.1)
  leaf_key ← or_fatal (codes "genkey") draw
  name ← or_panic (head names)
  der ←
      or_fatal (codes "sign leaf")
        (tools.create_certificate (leaf_template now name names) (parsed ca_cert) leaf_key ca_key)
  leaf ← or_fatal (codes "parse leaf") (tools.loader.parse_certificate der)
  ok (record { chain = der ∷ tools.raw ca_cert ∷ []; key = leaf_key; leaf = leaf }, ca_cert)
