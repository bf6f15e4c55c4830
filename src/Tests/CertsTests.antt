-- ===== src/Tests/CertsTests.antt =====
-- A certificate issued and reused, and a CA key in PKCS#8.
use hallmaster_proxy.Base.{true, false, [], ◌∷◌, none, some, ok, err, ◌≡◌, refl, arith, ◌↔◌}
use hallmaster_proxy.Text.{codes}
use hallmaster_proxy.Net.{split_host_port}
use hallmaster_proxy.Certs.{
  digital_signature, key_encipherment, server_auth, Certificate, Leaf, Signer, Draw,
  create_certificate, server_name_from_host, is_expiring_soon,
}
use hallmaster_proxy.Certs.Cache.{Cache, Call, Do, get_or_create, look_again}
use hallmaster_proxy.Certs.Cache.Served.{IsServed, get_or_create-IsServed, get_or_create-again}
use hallmaster_proxy.Certs.Load.{Loader, get_private_key, get_private_key_iff, IsKeyFile, rsa}

abbrev pub group_of_one : Do
group_of_one key fn cache = fn cache

abbrev pub test_signer : Signer
test_signer = record {
  hash_key = λ key. codes "sha1";
  ca_raw = codes "CA";
  ca_key_id = codes "id";
  sign = λ leaf. ok leaf.common_name;
}

abbrev pub test_draw : Draw
test_draw = record { key = ok 7; serial = ok 99 }

abbrev pub first_call : Call
first_call = record { first_look = 10000; second_look = 10001; created = 10002; draw = test_draw }

-- Five days later, with nothing to draw.
abbrev pub later_call : Call
later_call = record {
  first_look = 442000;
  second_look = 442000;
  created = 442000;
  draw = record { key = err (codes "no entropy"); serial = err (codes "no entropy") };
}

abbrev pub empty_cache : Cache
empty_cache hostname = none

abbrev pub discord_leaf : Leaf
discord_leaf = record {
  serial = 99;
  key = 7;
  common_name = codes "discord.com";
  dns_names = codes "discord.com" ∷ [];
  not_before = 6402;
  not_after = 614802;
  key_usage = digital_signature ∷ key_encipherment ∷ [];
  ext_key_usage = server_auth ∷ [];
  basic_constraints_valid = true;
  is_ca = false;
  subject_key_id = codes "sha1";
  authority_key_id = codes "id";
}

abbrev pub discord_certificate : Certificate
discord_certificate = record {
  chain = codes "discord.com" ∷ codes "CA" ∷ [];
  leaf = some discord_leaf;
}

issued :
    (get_or_create group_of_one test_signer first_call (codes "discord.com:443") empty_cache).1
    ≡ ok discord_certificate
unfolding get_or_create look_again create_certificate server_name_from_host split_host_port
    is_expiring_soon
issued = refl

get_or_create-IsServed_example :
    IsServed first_call
      (codes "discord.com:443")
      empty_cache
      (get_or_create group_of_one test_signer first_call (codes "discord.com:443") empty_cache)
get_or_create-IsServed_example =
    get_or_create-IsServed group_of_one test_signer first_call (codes "discord.com:443") empty_cache
      (λ key fn cache. refl) (omega arith) (omega arith) (λ hostname c e. cc)

get_or_create-again_test :
    get_or_create group_of_one test_signer later_call
      (codes "discord.com:443")
      (get_or_create group_of_one test_signer first_call (codes "discord.com:443") empty_cache).0
    ≡ (
      (get_or_create group_of_one test_signer first_call (codes "discord.com:443") empty_cache).0,
      ok discord_certificate,
    )
get_or_create-again_test =
    get_or_create-again group_of_one test_signer first_call later_call (codes "discord.com:443")
      empty_cache discord_certificate (λ key fn cache. refl) (omega arith) (omega arith)
      (λ hostname c e. cc) issued (discord_leaf, refl, omega arith)

-- One file of mode 0600, in PKCS#8.
abbrev pub test_loader : Loader
test_loader = record {
  stat_perm = λ path. ok 384;
  read_file = λ path. ok (codes "pem");
  decode_pem = λ pem. some (codes "PRIVATE KEY", codes "der");
  parse_certificate = λ der. err (codes "not a certificate");
  parse_pkcs1 = λ der. err (codes "use ParsePKCS8PrivateKey");
  parse_pkcs8 = λ der. ok (rsa 5);
}

get_private_key_iff_test :
    (get_private_key test_loader (codes "/certs/ca.key") ≡ ok 5)
    ↔ IsKeyFile test_loader (codes "/certs/ca.key") 5
get_private_key_iff_test = get_private_key_iff test_loader (codes "/certs/ca.key") 5
