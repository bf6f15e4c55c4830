-- ===== src/Mitm/Presented.antt =====
-- The certificates that clients are presented with.
use hallmaster_proxy.Base.{◌≤◌, [], ◌∷◌, ◌++◌, some, ok, ◌≡◌, refl, ◌∙◌, ap}
use hallmaster_proxy.Text.{Bytes}
use hallmaster_proxy.Net.Split.{IsPlain, split_plain_lem}
use hallmaster_proxy.Certs.{Signer, Certificate, Leaf, server_name_from_host}
use hallmaster_proxy.Certs.Cache.{Cache, Call, Do}
use hallmaster_proxy.Certs.Cache.Sound.{IsSound}
use hallmaster_proxy.Certs.Cache.Served.{Runs, get_or_create-IsServed}
use hallmaster_proxy.Mitm.{certificate_name, get_certificate}

server_name-split :
    (name port : Bytes)
    → IsPlain name
    → IsPlain port
    → server_name_from_host (name ++ (b':' ∷ port)) ≡ name
unfolding server_name_from_host
server_name-split name port plain plain' = rw (split_plain_lem name port plain plain') refl

-- A client that names no server in its ClientHello, behind a connection for `name:port` (neither
-- with a colon or a bracket), is presented with a certificate for `name` alone, where singleflight
-- runs the function, the clock does not go back and the cache is sound.
pub get_certificate-name :
    (group_do : Do) (signer : Signer) (call : Call) (name port : Bytes) (cache : Cache)
    (c : Certificate)
    → Runs group_do
    → call.first_look ≤ call.second_look
    → call.second_look ≤ call.created
    → IsSound cache
    → IsPlain name
    → IsPlain port
    → (get_certificate group_do signer call (name ++ (b':' ∷ port)) [] cache).1 ≡ ok c
    → (l : Leaf) × (c.leaf ≡ some l) × (l.common_name ≡ name) × (l.dns_names ≡ name ∷ [])
unfolding get_certificate certificate_name
get_certificate-name group_do signer call name port cache c runs le le' sound plain plain' h =
    let served =
      get_or_create-IsServed group_do signer call (name ++ (b':' ∷ port)) cache runs le le' sound in
    let (found, (l, e, is_leaf), lasts) = served.handed_out c h in
    let named = server_name-split name port plain plain' in
    (l, e, is_leaf.common_name ∙ named, is_leaf.dns_names ∙ ap (λ (x : Bytes). x ∷ []) named)
