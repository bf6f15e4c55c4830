-- ===== src/Handlers/Host/Accepts.antt =====
-- The names that isDiscordHost accepts.
use mathlib.Core.List.{Memᴰ}
use hallmaster_proxy.Base.{
  true, ◌||◌, List, [], ◌∷◌, ◌++◌, ◌≡◌, ◌↔◌, ◌⊎◌, inl, inr, refl, arith, Bool-cases, ||-eq-true,
  ||-true,
}
use hallmaster_proxy.Text.{Bytes, Unicode, equal, has_suffix}
use hallmaster_proxy.Text.Affix.{equal_iff, equal_refl, has_suffix-split, has_suffix-append}
use hallmaster_proxy.Handlers.Host.{discord_host_suffixes, matches_any, host_name, is_discord_host}

-- `name` is `domain`, or some labels and a dot in front of it.
abbrev pub IsWithin : Bytes → Bytes → Type 0
IsWithin domain name = (name ≡ domain) ⊎ ((labels : Bytes) × (name ≡ labels ++ (b'.' ∷ domain)))

matches_one :
    (name domain : Bytes)
    → (equal name domain || has_suffix name (b'.' ∷ domain)) ≡ true
    → IsWithin domain name
matches_one name domain h =
    elim (||-eq-true (equal name domain) (has_suffix name (b'.' ∷ domain)) h) [
      | inl same ↦ inl ((equal_iff name domain).0 same)
      | inr below ↦ inr (has_suffix-split name (b'.' ∷ domain) below)
    ]

one_matches :
    (name domain : Bytes)
    → IsWithin domain name
    → (equal name domain || has_suffix name (b'.' ∷ domain)) ≡ true
one_matches name domain (inl e) = rw (e, equal_refl domain)
one_matches name domain (inr (labels, e)) =
    rw (e, has_suffix-append labels (b'.' ∷ domain))
      (||-true (equal (labels ++ (b'.' ∷ domain)) domain))

matches_any-Memᴰ :
    (name : Bytes) (domains : List Bytes)
    → matches_any name domains ≡ true
    → (domain : Bytes) × Memᴰ domain domains × IsWithin domain name
unfolding matches_any
matches_any-Memᴰ name [] h = cc
matches_any-Memᴰ name (s ∷ rest) h =
    elim (Bool-cases (equal name s || has_suffix name (b'.' ∷ s))) [
      | inl here ↦ (s, Memᴰ.head refl, matches_one name s here)
      | inr no_match ↦
          let (domain, m, w) = matches_any-Memᴰ name rest (ground arith) in (domain, Memᴰ.tail m, w)
    ]

Memᴰ-matches_any :
    (name : Bytes) (domains : List Bytes) (domain : Bytes)
    → Memᴰ domain domains
    → IsWithin domain name
    → matches_any name domains ≡ true
unfolding matches_any
Memᴰ-matches_any name [] domain m w = elim m [ ]
Memᴰ-matches_any name (s ∷ rest) domain (Memᴰ.head e) w = rw (one_matches name s (rw e at w)) refl
Memᴰ-matches_any name (s ∷ rest) domain (Memᴰ.tail m) w =
    ground (arith, Memᴰ-matches_any name rest domain m w)

-- A Host header is taken for Discord's exactly when its name (without port and final dot, in lower
-- case) is discord.com or discord.gg or ends with a dot and one of these.
pub is_discord_host_iff :
    (u : Unicode) (host_header : Bytes)
    → (is_discord_host u host_header ≡ true) ↔ (
        (domain : Bytes) × Memᴰ domain discord_host_suffixes
        × IsWithin domain (host_name u host_header))
unfolding is_discord_host
is_discord_host_iff u host_header = (
  matches_any-Memᴰ (host_name u host_header) discord_host_suffixes,
  λ p. Memᴰ-matches_any (host_name u host_header) discord_host_suffixes p.0 p.1 p.2,
)
