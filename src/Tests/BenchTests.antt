-- ===== src/Tests/BenchTests.antt =====
-- Toy PEM and X.509, and two snapshots between which a counter wraps around.
use hallmaster_proxy.Base.{
  ℕ, ◌+◌, ◌-◌, [], ◌∷◌, ◌++◌, Option, none, some, Result, ok, err, ◌≡◌, refl, ap₂, length, take,
  drop, take_prefix, drop_prefix, pos, negsuc, arith,
}
use hallmaster_proxy.Text.{Bytes, codes}
use hallmaster_proxy.Certs.Load.{new}
use hallmaster_proxy.Internaltest.{MemStats, snapshot_runtime, sub, two_64, two_32}
use hallmaster_proxy.Internaltest.Exact.{sub-snapshot_runtime}
use hallmaster_proxy.Internaltest.Ca.{
  Files, loader_on, itself, parsed, Tools, ca_template, leaf_template, with_ca_files, write_test_ca,
  issue_leaf,
}
use hallmaster_proxy.Internaltest.Ca.Written.{IsTools, new-write_test_ca}
use hallmaster_proxy.Internaltest.Ca.Signed.{issue_leaf-new}

abbrev before : MemStats
before = record {
  heap_alloc = 7000;
  total_alloc = two_64 - 10;
  num_goroutine = 9;
  num_gc = two_32 - 1;
}

abbrev after : MemStats
after = record {
  heap_alloc = 5000;
  total_alloc = two_64 + 30;
  num_goroutine = 4;
  num_gc = two_32 + 1;
}

sub-snapshot_runtime_example : sub (snapshot_runtime before) (snapshot_runtime after) ≡ record {
  heap_alloc_bytes = negsuc 1999;
  total_allocs = pos 40;
  goroutines = negsuc 4;
  gc_count = pos 2;
}
sub-snapshot_runtime_example = sub-snapshot_runtime before after (record {
  heap = (omega arith, omega arith);
  allocs = (omega arith, omega arith);
  goroutines = (omega arith, omega arith);
  gcs = (omega arith, omega arith);
})

-- The type behind its length, then the bytes.
abbrev block_of : Bytes → Option (Bytes × Bytes)
block_of [] = none
block_of (n ∷ pem) = some (take n pem, drop n pem)

abbrev first_number : Bytes → Result Bytes ℕ
first_number [] = err (codes "empty")
first_number (n ∷ der) = ok n

abbrev toy_tools : Tools
toy_tools = record {
  loader = record {
    stat_perm = λ path. err (codes "unused");
    read_file = λ path. err (codes "unused");
    decode_pem = block_of;
    parse_certificate = first_number;
    parse_pkcs1 = first_number;
    parse_pkcs8 = λ der. err (codes "unused");
  };
  create_certificate =
      λ template parent subject signer. ok (template.serial ∷ subject ∷ signer ∷ []);
  encode_pem = λ kind der. length kind ∷ (kind ++ der);
  marshal_pkcs1 = λ key. key ∷ [];
  raw = λ c. c ∷ [];
  new_mode = λ perm. perm;
  write_error = λ path. none;
}

toy_tools-IsTools : IsTools toy_tools
toy_tools-IsTools = record {
  decodes = λ kind der. ap₂ (λ a b. some (a, b)) (take_prefix kind der) (drop_prefix kind der);
  parses_key = λ key. refl;
  parses = λ t p subject signer der created. (t.serial, ground arith);
  keeps_private = refl;
}

abbrev no_files : Files
no_files path = none

abbrev test_ca : Files
test_ca = with_ca_files toy_tools (codes "/tmp/x") (1 ∷ 5 ∷ 5 ∷ []) 5 no_files

writes :
    write_test_ca toy_tools 90000000 (codes "/tmp/x") (ok 5) no_files
    ≡ ok (test_ca, codes "/tmp/x/ca.crt", codes "/tmp/x/ca.pem")
unfolding write_test_ca
writes = refl

new-write_test_ca_test :
    (key c : ℕ) × (der : Bytes) × (◌≡◌ {A = Result Bytes ℕ} (ok 5) (ok key))
    × (toy_tools.create_certificate (ca_template 90000000) itself key key ≡ ok der)
    × (toy_tools.loader.parse_certificate der ≡ ok c)
    × (new (loader_on toy_tools.loader test_ca) (codes "/tmp/x/ca.crt") (codes "/tmp/x/ca.pem")
        ≡ ok (c, key))
new-write_test_ca_test =
    new-write_test_ca toy_tools 90000000 (codes "/tmp/x") (ok 5) no_files test_ca
      (codes "/tmp/x/ca.crt") (codes "/tmp/x/ca.pem") toy_tools-IsTools writes

issue_leaf-new_test :
    (c key leaf : ℕ) × (der : Bytes) × (new
        (loader_on toy_tools.loader test_ca)
        (codes "/tmp/x/ca.crt")
        (codes "/tmp/x/ca.pem")
      ≡ ok (c, key))
    × (toy_tools.create_certificate
          (leaf_template 90000100 (codes "discord.com") (codes "discord.com" ∷ []))
          (parsed c)
          8
          key
        ≡ ok der)
    × (toy_tools.loader.parse_certificate der ≡ ok leaf)
    × (issue_leaf toy_tools test_ca 90000100
          (codes "/tmp/x/ca.crt")
          (codes "/tmp/x/ca.pem")
          (codes "discord.com" ∷ [])
          (ok 8)
        ≡ ok (record { chain = der ∷ toy_tools.raw c ∷ []; key = 8; leaf = leaf }, c))
issue_leaf-new_test =
    issue_leaf-new toy_tools 90000000 (codes "/tmp/x") (ok 5) no_files test_ca
      (codes "/tmp/x/ca.crt") (codes "/tmp/x/ca.pem") 90000100 (codes "discord.com") [] 8
      toy_tools-IsTools writes (λ c key. (2 ∷ 8 ∷ key ∷ [], refl))
