-- ===== src/Handlers/Host/Forms.antt =====
-- The forms of a Host header: ports, final dots, subdomains at any depth, and lookalikes.
use mathlib.Core.List.{Memᴰ, map-append}
use hallmaster_proxy.Base.{
  ℕ, true, false, [], ◌∷◌, ◌++◌, map, ◌≡◌, ◌≢◌, inl, inr, refl, sym, ap, ◌∙◌, arith, Bool-cases,
  ◌<◌, length, length-append, append_assoc,
}
use hallmaster_proxy.Text.{Bytes, codes, Unicode, has_suffix, lower_byte, is_ascii}
use hallmaster_proxy.Text.Affix.{
  has_suffix-split, append_cancel, trim_suffix_none, trim_suffix-append,
}
use hallmaster_proxy.Text.Case.{to_lower_ascii}
use hallmaster_proxy.Net.{has_byte}
use hallmaster_proxy.Net.Split.{has_byte-append, IsPlain, split_no_colon, split_plain_lem}
use hallmaster_proxy.Handlers.Host.{discord_host_suffixes, matches_any, host_name, is_discord_host}
use hallmaster_proxy.Handlers.Host.Accepts.{IsWithin, is_discord_host_iff}

same_name :
    (u : Unicode) (a b : Bytes)
    → host_name u a ≡ host_name u b
    → is_discord_host u a ≡ is_discord_host u b
unfolding is_discord_host
same_name u a b e = ap (λ (n : Bytes). matches_any n discord_host_suffixes) e

-- A port does not change whether a name is taken for Discord's, if neither has a colon or a bracket.
pub is_discord_host-port :
    (u : Unicode) (name port : Bytes)
    → IsPlain name
    → IsPlain port
    → is_discord_host u (name ++ (b':' ∷ port)) ≡ is_discord_host u name
unfolding host_name
is_discord_host-port u name port n p =
    same_name u (name ++ (b':' ∷ port)) name
      (rw (split_plain_lem name port n p, split_no_colon name n.no_colon))

-- The name that is compared, of a header with no port and no final dot.
pub host_name_plain :
    (u : Unicode) (name : Bytes)
    → has_byte name b':' ≡ false
    → has_suffix name (codes ".") ≡ false
    → is_ascii name ≡ true
    → host_name u name ≡ map lower_byte name
unfolding host_name
host_name_plain u name n d a =
    rw (split_no_colon name n, trim_suffix_none name (codes ".") d) (to_lower_ascii u name a)

no_colon_dot :
    (name : Bytes) → has_byte name b':' ≡ false → has_byte (name ++ codes ".") b':' ≡ false
unfolding has_byte
no_colon_dot name n = rw (has_byte-append name (codes ".") b':', n)

-- One final dot does not change whether a name is taken for Discord's.
is_discord_host_dot :
    (u : Unicode) (name : Bytes)
    → has_byte name b':' ≡ false
    → has_suffix name (codes ".") ≡ false
    → is_discord_host u (name ++ codes ".") ≡ is_discord_host u name
unfolding host_name
is_discord_host_dot u name n d = same_name u (name ++ codes ".") name (
    rw (
      split_no_colon (name ++ codes ".") (no_colon_dot name n),
      split_no_colon name n,
      trim_suffix-append name (codes "."),
      trim_suffix_none name (codes ".") d,
    ))

last_not_dot :
    (front : Bytes) (last : ℕ) → last ≢ b'.' → has_suffix (front ++ (last ∷ [])) (codes ".") ≡ false
last_not_dot front last h = elim (Bool-cases (has_suffix (front ++ (last ∷ [])) (codes "."))) [
  | inl dot ↦
      let (labels, e) = has_suffix-split (front ++ (last ∷ [])) (codes ".") dot in
      absurd (h (ground (arith, append_cancel front (last ∷ []) labels (codes ".") refl e)))
  | inr none ↦ none
]

-- The headers that this section is about: plain ASCII names.
pub record IsHostName (name : Bytes) : Type 0 where
  pub no_colon : has_byte name b':' ≡ false
  pub ascii : is_ascii name ≡ true

-- Every ASCII name below discord.com, without a port, is taken for Discord's, however many labels
-- stand in front.
pub is_discord_host_subdomain :
    (u : Unicode) (labels : Bytes)
    → IsHostName (labels ++ codes ".discord.com")
    → is_discord_host u (labels ++ codes ".discord.com") ≡ true
unfolding lower_byte
is_discord_host_subdomain u labels h =
    let name = labels ++ codes ".discord.com" in
    let dot : has_suffix name (codes ".") ≡ false =
      rw (← append_assoc labels (codes ".discord.co") (codes "m"))
        (last_not_dot (labels ++ codes ".discord.co") b'm' (λ e. omega arith)) in
    (is_discord_host_iff u name).1 (
      codes "discord.com",
      Memᴰ.head refl,
      inr (
        map lower_byte labels,
        rw (host_name_plain u name h.no_colon dot h.ascii)
            (map-append lower_byte labels (codes ".discord.com")),
      ),
    )

lower_byte_dot : (c : ℕ) → lower_byte c ≡ b'.' → c ≡ b'.'
unfolding lower_byte
lower_byte_dot c h = ground arith

front_shorter : (a b d : Bytes) → length d < length b → a ++ b ≢ d
front_shorter a b d l e = absurd (omega (arith, ap (λ (t : Bytes). length t) e, length-append a b))

-- With the first domain.
not_below_com :
    (a : Bytes) (z : ℕ)
    → z ≢ b'.'
    → ¬ IsWithin (codes "discord.com") (a ++ (z ∷ codes "discord.com"))
not_below_com a z h (inl e) =
    front_shorter a (z ∷ codes "discord.com") (codes "discord.com") (omega arith) e
not_below_com a z h (inr (labels, e)) =
    h (
      ground
        (arith, append_cancel a (z ∷ codes "discord.com") labels (codes ".discord.com") refl e))

-- With the second domain: the last bytes differ.
not_below_gg :
    (a : Bytes) (z : ℕ) → ¬ IsWithin (codes "discord.gg") (a ++ (z ∷ codes "discord.com"))
not_below_gg a z (inl e) =
    front_shorter a (z ∷ codes "discord.com") (codes "discord.gg") (omega arith) e
not_below_gg a z (inr (labels, e)) = ground (
  arith,
  append_cancel (a ++ (z ∷ codes "discord.co")) (codes "m") (labels ++ codes ".discord.g")
      (codes "g") refl
      (append_assoc a (z ∷ codes "discord.co") (codes "m")
        ∙ e
        ∙ sym (append_assoc labels (codes ".discord.g") (codes "g"))),
)

not_below :
    (a : Bytes) (z : ℕ) (domain : Bytes)
    → z ≢ b'.'
    → Memᴰ domain discord_host_suffixes
    → ¬ IsWithin domain (a ++ (z ∷ codes "discord.com"))
not_below a z domain h (Memᴰ.head e) w = not_below_com a z h (rw e at w)
not_below a z domain h (Memᴰ.tail (Memᴰ.head e)) w = not_below_gg a z (rw e at w)
not_below a z domain h (Memᴰ.tail (Memᴰ.tail m)) w = elim m [ ]

-- An ASCII name without a port that ends with discord.com, with a byte other than a dot in front of
-- that, is refused.
pub is_discord_host_lookalike :
    (u : Unicode) (front : Bytes) (last : ℕ)
    → IsHostName (front ++ (last ∷ codes "discord.com"))
    → last ≢ b'.'
    → is_discord_host u (front ++ (last ∷ codes "discord.com")) ≡ false
unfolding lower_byte
is_discord_host_lookalike u front last h no_dot =
    let name = front ++ (last ∷ codes "discord.com") in
    let dot : has_suffix name (codes ".") ≡ false =
      rw (← append_assoc front (last ∷ codes "discord.co") (codes "m"))
        (last_not_dot (front ++ (last ∷ codes "discord.co")) b'm' (λ e. omega arith)) in
    let lowered : host_name u name
        ≡ map lower_byte front ++ (lower_byte last ∷ codes "discord.com") =
      host_name_plain u name h.no_colon dot h.ascii
      ∙ map-append lower_byte front (last ∷ codes "discord.com") in
    elim (Bool-cases (is_discord_host u name)) [
      | inr refused ↦ refused
      | inl accepted ↦
          let (domain, m, w) = (is_discord_host_iff u name).0 accepted in
          absurd (
            not_below (map lower_byte front) (lower_byte last) domain
              (λ e. no_dot (lower_byte_dot last e)) m (rw lowered at w))
    ]
