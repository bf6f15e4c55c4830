-- ===== src/Internaltest/Ca/Signed.antt =====
-- IssueLeaf signs with the CA that WriteTestCA has written.
use hallmaster_proxy.Base.{ℕ, List, [], ◌∷◌, some, Result, ok, ◌≡◌, refl, ap}
use hallmaster_proxy.Text.{Bytes, codes}
use hallmaster_proxy.Certs.Load.{new, new_lem}
use hallmaster_proxy.Internaltest.Ca.{
  Files, loader_on, itself, parsed, Tools, in_dir, ca_template, leaf_template, with_ca_files,
  write_test_ca, issue_leaf, contents_of,
}
use hallmaster_proxy.Internaltest.Ca.Written.{
  IsTools, cert_file, key_file, write_test_ca-IsWritten, written-cert, written-key,
}

issue_leaf-ok :
    (tools : Tools) (files : Files) (now : ℕ) (cert_path key_path name : Bytes) (names : List Bytes)
    (c key leaf_key leaf : ℕ) (cert_pem key_pem cert_der key_der der kind kind' : Bytes)
    → contents_of (files cert_path) ≡ ok cert_pem
    → tools.loader.decode_pem cert_pem ≡ some (kind, cert_der)
    → tools.loader.parse_certificate cert_der ≡ ok c
    → contents_of (files key_path) ≡ ok key_pem
    → tools.loader.decode_pem key_pem ≡ some (kind', key_der)
    → tools.loader.parse_pkcs1 key_der ≡ ok key
    → tools.create_certificate (leaf_template now name (name ∷ names)) (parsed c) leaf_key key
      ≡ ok der
    → tools.loader.parse_certificate der ≡ ok leaf
    → issue_leaf tools files now cert_path key_path (name ∷ names) (ok leaf_key)
      ≡ ok (record { chain = der ∷ tools.raw c ∷ []; key = leaf_key; leaf = leaf }, c)
unfolding issue_leaf
issue_leaf-ok tools files now cert_path key_path name names c key leaf_key leaf cert_pem key_pem
      cert_der key_der der kind kind' reads decodes parses reads' decodes' parses' signs
      parses_leaf =
    rw (reads, decodes, parses, reads', decodes', parses', signs, parses_leaf) refl

-- IssueLeaf issues under the CA that WriteTestCA wrote and New loads: if no step of WriteTestCA
-- failed, a key was drawn, at least one name is asked for and the CA can sign for these names, then
-- IssueLeaf on the same two files returns a chain of the leaf and the CA, with the drawn key.
pub issue_leaf-new :
    (tools : Tools) (now : ℕ) (dir : Bytes) (draw : Result Bytes ℕ) (files files' : Files)
    (cert_path key_path : Bytes) (later : ℕ) (name : Bytes) (names : List Bytes) (leaf_key : ℕ)
    → IsTools tools
    → write_test_ca tools now dir draw files ≡ ok (files', cert_path, key_path)
    → ((c key : ℕ)
        → (der : Bytes) × (tools.create_certificate
              (leaf_template later name (name ∷ names))
              (parsed c)
              leaf_key
              key
            ≡ ok der))
    → (c key leaf : ℕ) × (der : Bytes) × (new (loader_on tools.loader files') cert_path key_path
        ≡ ok (c, key))
      × (tools.create_certificate (leaf_template later name (name ∷ names)) (parsed c) leaf_key key
          ≡ ok der)
      × (tools.loader.parse_certificate der ≡ ok leaf)
      × (issue_leaf tools files' later cert_path key_path (name ∷ names) (ok leaf_key)
          ≡ ok (record { chain = der ∷ tools.raw c ∷ []; key = leaf_key; leaf = leaf }, c))
issue_leaf-new tools now dir draw files files' cert_path key_path later name names leaf_key is_tools
      h signs =
    let w = write_test_ca-IsWritten tools now dir draw files files' cert_path key_path h in
    let (c, parses) = is_tools.parses (ca_template now) itself w.key w.key w.der w.created in
    let (der, signed) = signs c w.key in
    let (leaf, parses_leaf) =
      is_tools.parses (leaf_template later name (name ∷ names)) (parsed c) leaf_key w.key der
        signed in
    (
      c,
      w.key,
      leaf,
      der,
      rw (w.files_are, w.cert_path_is, w.key_path_is)
          (new_lem (loader_on tools.loader (with_ca_files tools dir w.der w.key files))
            (in_dir dir (codes "ca.crt")) (in_dir dir (codes "ca.pem")) c w.key
            (written-cert tools is_tools dir w.der w.key files c parses)
            (written-key tools is_tools dir w.der w.key files)),
      signed,
      parses_leaf,
      rw (w.files_are, w.cert_path_is, w.key_path_is)
          (issue_leaf-ok tools (with_ca_files tools dir w.der w.key files) later
            (in_dir dir (codes "ca.crt")) (in_dir dir (codes "ca.pem")) name names c w.key leaf_key
            leaf (tools.encode_pem (codes "CERTIFICATE") w.der)
            (tools.encode_pem (codes "RSA PRIVATE KEY") (tools.marshal_pkcs1 w.key)) w.der
            (tools.marshal_pkcs1 w.key) der (codes "CERTIFICATE") (codes "RSA PRIVATE KEY")
            (ap contents_of (cert_file tools dir w.der w.key files))
            (is_tools.decodes (codes "CERTIFICATE") w.der) parses
            (ap contents_of (key_file tools dir w.der w.key files))
            (is_tools.decodes (codes "RSA PRIVATE KEY") (tools.marshal_pkcs1 w.key))
            (is_tools.parses_key w.key) signed parses_leaf),
    )
