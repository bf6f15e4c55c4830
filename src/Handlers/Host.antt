-- ===== src/Handlers/Host.antt =====
-- isDiscordHost and isWebsocketUpgrade's texts, proxy/internals/handlers/https.go.
pub mod Accepts
pub mod Forms
use hallmaster_proxy.Base.{
  Bool, true, false, ◌||◌, List, [], ◌∷◌, ◌++◌, Result, ok, err, if◌then◌else◌,
}
use hallmaster_proxy.Text.{Bytes, codes, Unicode, equal, has_suffix, trim_suffix, to_lower}
use hallmaster_proxy.Net.{AddrError, split_host_port}

abbrev pub discord_host_suffixes : List Bytes
discord_host_suffixes = codes "discord.com" ∷ codes "discord.gg" ∷ []

abbrev pub host_of : Bytes → Result AddrError (Bytes × Bytes) → Bytes
host_of host_header (ok (host, port)) = host
host_of host_header (err e) = host_header

-- The loop over discordHostSuffixes.
pub matches_any : Bytes → List Bytes → Bool
unfolding equal has_suffix
matches_any host [] = false
matches_any host (s ∷ rest) =
    if equal host s || has_suffix host (b'.' ∷ s) then true else matches_any host rest

-- The name that is compared: no port, no final dot, in lower case.
unfoldable pub host_name : Unicode → Bytes → Bytes
host_name u host_header =
    to_lower u (trim_suffix (host_of host_header (split_host_port host_header)) (codes "."))

unfoldable pub is_discord_host : Unicode → Bytes → Bool
unfolding matches_any host_name split_host_port trim_suffix to_lower
is_discord_host u host_header = matches_any (host_name u host_header) discord_host_suffixes
