-- ===== src/Internaltest/Ca/Written.antt =====
-- What New and IssueLeaf find in the files that WriteTestCA has written.
use hallmaster_proxy.Base.{
  ℕ, false, [], ◌∷◌, ◌++◌, some, Result, ok, ◌≡◌, refl, ap, ◌∙◌, arith, inl, inr, Result-cases,
  Option-cases,
}
use hallmaster_proxy.Text.{Bytes, codes, equal, contains}
use hallmaster_proxy.Text.Affix.{equal_refl}
use hallmaster_proxy.Certs.Load.{
  shared_bits, new, get_public_key, get_private_key, get_private_key_iff, get_public_key_lem,
  new_lem,
}
use hallmaster_proxy.Internaltest.Ca.{
  File, Files, put, loader_on, Template, Parent, itself, Tools, in_dir, ca_template, with_ca_files,
  new_file, write_test_ca, perm_of, contents_of,
}

-- What the packages document: PEM and PKCS#1 decode what they encoded, a certificate that was
-- created parses, and a umask adds no bits.
pub record IsTools (tools : Tools) : Type 0 where
  pub decodes :
      (kind der : Bytes) → tools.loader.decode_pem (tools.encode_pem kind der) ≡ some (kind, der)
  pub parses_key : (key : ℕ) → tools.loader.parse_pkcs1 (tools.marshal_pkcs1 key) ≡ ok key
  pub parses :
      (t : Template) (p : Parent) (subject signer : ℕ) (der : Bytes)
      → tools.create_certificate t p subject signer ≡ ok der
      → (c : ℕ) × (tools.loader.parse_certificate der ≡ ok c)
  pub keeps_private : shared_bits (tools.new_mode 384) ≡ 0

equal-append : (p a b : Bytes) → equal (p ++ a) (p ++ b) ≡ equal a b
unfolding equal
equal-append [] a b = refl
equal-append (x ∷ p) a b = ground (arith, equal-append p a b)

put_same : (files : Files) (path : Bytes) (file : File) → put files path file path ≡ some file
unfolding put
put_same files path file = rw (equal_refl path) refl

put_other :
    (files : Files) (path other : Bytes) (file : File)
    → equal other path ≡ false
    → put files path file other ≡ files other
unfolding put
put_other files path other file h = rw h refl

module _ (tools : Tools) (now : ℕ) (dir : Bytes) (draw : Result Bytes ℕ) (files : Files) where
  -- A run of WriteTestCA that came to its end.
  pub record IsWritten (files' : Files) (cert_path key_path : Bytes) : Type 0 where
    pub key : ℕ
    pub der : Bytes
    pub drawn : draw ≡ ok key
    pub created : tools.create_certificate (ca_template now) itself key key ≡ ok der
    pub files_are : files' ≡ with_ca_files tools dir der key files
    pub cert_path_is : cert_path ≡ in_dir dir (codes "ca.crt")
    pub key_path_is : key_path ≡ in_dir dir (codes "ca.pem")

  pub write_test_ca-IsWritten :
      (files' : Files) (cert_path key_path : Bytes)
      → write_test_ca tools now dir draw files ≡ ok (files', cert_path, key_path)
      → IsWritten files' cert_path key_path
  unfolding write_test_ca
  write_test_ca-IsWritten files' cert_path key_path h = elim (Result-cases draw) [
    | inr (e, d) ↦ ground arith
    | inl (key, d) ↦
        elim (Result-cases (tools.create_certificate (ca_template now) itself key key)) [
          | inr (e, c) ↦ ground arith
          | inl (der, c) ↦ elim (Option-cases (tools.write_error (in_dir dir (codes "ca.crt")))) [
            | inr (e, w) ↦ ground arith
            | inl w ↦ elim (Option-cases (tools.write_error (in_dir dir (codes "ca.pem")))) [
              | inr (e, w') ↦ ground arith
              | inl w' ↦ record {
                key = key;
                der = der;
                drawn = d;
                created = c;
                files_are = ground arith;
                cert_path_is = ground arith;
                key_path_is = ground arith;
              }
            ]
          ]
        ]
  ]

pub cert_file :
    (tools : Tools) (dir der : Bytes) (key : ℕ) (files : Files)
    → with_ca_files tools dir der key files (in_dir dir (codes "ca.crt"))
      ≡ some (new_file tools 420 (tools.encode_pem (codes "CERTIFICATE") der))
unfolding equal
cert_file tools dir der key files =
    put_other
      (put files (in_dir dir (codes "ca.crt"))
        (new_file tools 420 (tools.encode_pem (codes "CERTIFICATE") der)))
      (in_dir dir (codes "ca.pem")) (in_dir dir (codes "ca.crt"))
      (new_file tools 384 (tools.encode_pem (codes "RSA PRIVATE KEY") (tools.marshal_pkcs1 key)))
      (equal-append dir (codes "/ca.crt") (codes "/ca.pem"))
    ∙ put_same files (in_dir dir (codes "ca.crt"))
        (new_file tools 420 (tools.encode_pem (codes "CERTIFICATE") der))

pub key_file :
    (tools : Tools) (dir der : Bytes) (key : ℕ) (files : Files)
    → with_ca_files tools dir der key files (in_dir dir (codes "ca.pem"))
      ≡ some (
          new_file tools 384 (tools.encode_pem (codes "RSA PRIVATE KEY") (tools.marshal_pkcs1 key)))
key_file tools dir der key files =
    put_same
      (put files (in_dir dir (codes "ca.crt"))
        (new_file tools 420 (tools.encode_pem (codes "CERTIFICATE") der)))
      (in_dir dir (codes "ca.pem"))
      (new_file tools 384 (tools.encode_pem (codes "RSA PRIVATE KEY") (tools.marshal_pkcs1 key)))

module _ (tools : Tools) (is_tools : IsTools tools) (dir der : Bytes) (key : ℕ)
    (files : Files) where
  pub written-key :
      get_private_key
        (loader_on tools.loader (with_ca_files tools dir der key files))
        (in_dir dir (codes "ca.pem"))
      ≡ ok key
  unfolding contains
  written-key =
      let file = key_file tools dir der key files in
      (get_private_key_iff (loader_on tools.loader (with_ca_files tools dir der key files))
          (in_dir dir (codes "ca.pem")) key).1
        (record {
          perm = tools.new_mode 384;
          stats = ap perm_of file;
          private = is_tools.keeps_private;
          pem = tools.encode_pem (codes "RSA PRIVATE KEY") (tools.marshal_pkcs1 key);
          reads = ap contents_of file;
          kind = codes "RSA PRIVATE KEY";
          der = tools.marshal_pkcs1 key;
          decodes = is_tools.decodes (codes "RSA PRIVATE KEY") (tools.marshal_pkcs1 key);
          is_private_key = refl;
          holds = inl (is_tools.parses_key key);
        })

  pub written-cert :
      (c : ℕ)
      → tools.loader.parse_certificate der ≡ ok c
      → get_public_key
          (loader_on tools.loader (with_ca_files tools dir der key files))
          (in_dir dir (codes "ca.crt"))
        ≡ ok c
  written-cert c parses =
      get_public_key_lem (loader_on tools.loader (with_ca_files tools dir der key files))
        (in_dir dir (codes "ca.crt")) (tools.encode_pem (codes "CERTIFICATE") der) der c
        (ap contents_of (cert_file tools dir der key files))
        (is_tools.decodes (codes "CERTIFICATE") der) parses

-- New loads what WriteTestCA has written: if no step of it failed, New accepts the two files, and
-- what it holds then is the key that was drawn and the certificate that was created with it.
pub new-write_test_ca :
    (tools : Tools) (now : ℕ) (dir : Bytes) (draw : Result Bytes ℕ) (files files' : Files)
    (cert_path key_path : Bytes)
    → IsTools tools
    → write_test_ca tools now dir draw files ≡ ok (files', cert_path, key_path)
    → (key c : ℕ) × (der : Bytes) × (draw ≡ ok key)
      × (tools.create_certificate (ca_template now) itself key key ≡ ok der)
      × (tools.loader.parse_certificate der ≡ ok c)
      × (new (loader_on tools.loader files') cert_path key_path ≡ ok (c, key))
new-write_test_ca tools now dir draw files files' cert_path key_path is_tools h =
    let w = write_test_ca-IsWritten tools now dir draw files files' cert_path key_path h in
    let (c, parses) = is_tools.parses (ca_template now) itself w.key w.key w.der w.created in
    (
      w.key,
      c,
      w.der,
      w.drawn,
      w.created,
      parses,
      rw (w.files_are, w.cert_path_is, w.key_path_is)
          (new_lem (loader_on tools.loader (with_ca_files tools dir w.der w.key files))
            (in_dir dir (codes "ca.crt")) (in_dir dir (codes "ca.pem")) c w.key
            (written-cert tools is_tools dir w.der w.key files c parses)
            (written-key tools is_tools dir w.der w.key files)),
    )
