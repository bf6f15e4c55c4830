-- ===== src/Tests/HostTests.antt =====
-- The table of proxy/internals/handlers/host_test.go, and the theorems on Host headers.
use Prim.Native.String.{String}
use mathlib.Core.List.{Memᴰ}
use hallmaster_proxy.Base.{Bool, true, false, [], ◌∷◌, ◌++◌, map, ◌≡◌, ◌↔◌, refl, arith}
use hallmaster_proxy.Text.{Bytes, codes, is_ascii}
use hallmaster_proxy.Net.{has_byte}
use hallmaster_proxy.Net.Split.{IsPlain}
use hallmaster_proxy.Handlers.Host.{discord_host_suffixes, host_name, is_discord_host}
use hallmaster_proxy.Handlers.Host.Accepts.{IsWithin, is_discord_host_iff}
use hallmaster_proxy.Handlers.Host.Forms.{
  IsHostName, is_discord_host-port, is_discord_host_subdomain, is_discord_host_lookalike,
}
use hallmaster_proxy.Tests.Fixtures.{ascii_only}

abbrev check : String → Bool
check s = is_discord_host ascii_only (codes s)

is_discord_host_table :
    map check (
      "discord.com" ∷ "discord.com:443" ∷ "DISCORD.COM" ∷ "discord.com." ∷ "discord.gg"
      ∷ "gateway.discord.gg" ∷ "foo.discord.gg" ∷ "a.b.discord.com" ∷ "evil-discord.com"
      ∷ "evil-discord.com.attacker.io" ∷ "discord.com.attacker.io" ∷ "notdiscord.com" ∷ ""
      ∷ "localhost:8080" ∷ "example.com" ∷ [])
    ≡ true ∷ true ∷ true ∷ true ∷ true ∷ true ∷ true ∷ true ∷ false ∷ false ∷ false ∷ false ∷ false
      ∷ false ∷ false ∷ []
unfolding is_discord_host
is_discord_host_table = refl

is_discord_host_iff_example : (is_discord_host ascii_only (codes "gateway.discord.gg") ≡ true) ↔ (
    (domain : Bytes) × Memᴰ domain discord_host_suffixes
    × IsWithin domain (host_name ascii_only (codes "gateway.discord.gg")))
is_discord_host_iff_example = is_discord_host_iff ascii_only (codes "gateway.discord.gg")

gateway-IsPlain : IsPlain (codes "gateway.discord.gg")
unfolding has_byte
gateway-IsPlain = record { no_colon = refl; no_open = refl; no_close = refl }

port-IsPlain : IsPlain (codes "443")
unfolding has_byte
port-IsPlain = record { no_colon = refl; no_open = refl; no_close = refl }

is_discord_host-port_test :
    is_discord_host ascii_only (codes "gateway.discord.gg" ++ codes ":443")
    ≡ is_discord_host ascii_only (codes "gateway.discord.gg")
is_discord_host-port_test =
    is_discord_host-port ascii_only (codes "gateway.discord.gg") (codes "443") gateway-IsPlain
      port-IsPlain

abbrev deep_labels : Bytes
deep_labels = codes "a.b.c"

deep_name : IsHostName (codes "a.b.c.discord.com")
unfolding has_byte is_ascii
deep_name = record { no_colon = refl; ascii = refl }

is_discord_host_subdomain_test :
    is_discord_host ascii_only (deep_labels ++ codes ".discord.com") ≡ true
is_discord_host_subdomain_test = is_discord_host_subdomain ascii_only deep_labels deep_name

lookalike_name : IsHostName (codes "evil-discord.com")
unfolding has_byte is_ascii
lookalike_name = record { no_colon = refl; ascii = refl }

is_discord_host_lookalike_test :
    is_discord_host ascii_only (codes "evil" ++ (b'-' ∷ codes "discord.com")) ≡ false
is_discord_host_lookalike_test =
    is_discord_host_lookalike ascii_only (codes "evil") b'-' lookalike_name (λ e. omega arith)
