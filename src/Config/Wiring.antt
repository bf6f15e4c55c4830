-- ===== src/Config/Wiring.antt =====
-- The parts as main puts them together.
use mathlib.Core.List.{Memᴰ}
use hallmaster_proxy.Base.{
  Bool, true, ◌||◌, List, ◌++◌, if◌then◌else◌, ◌≡◌, ◌⊎◌, ◌↔◌, inl, inr, arith,
}
use hallmaster_proxy.Text.{Bytes, codes, Unicode, equal}
use hallmaster_proxy.Text.Affix.{equal_iff}
use hallmaster_proxy.Httpio.{Codecs}
use hallmaster_proxy.Handlers.Host.{is_discord_host, discord_host_suffixes, host_name}
use hallmaster_proxy.Handlers.Host.Accepts.{IsWithin, is_discord_host_iff}
use hallmaster_proxy.Handlers.Https.{should_intercept, is_relay}
use hallmaster_proxy.Mitm.{Accepted, serve}
use hallmaster_proxy.Mitm.Accept.{is_cancelled, serve-connections}
use hallmaster_proxy.Config.{Config, health, main_deps}

or_iff : (a b c : Bool) → (((a || b) || c) ≡ true) ↔ ((b ≡ true) ⊎ ((a ≡ true) ⊎ (c ≡ true)))
or_iff a b c = ground arith

-- The proxy that main starts inspects exactly the requests whose Host is its hostname, its hostname
-- and port, or a name that is or lies within one of Discord's two.
pub main_deps-should_intercept_iff :
    (u : Unicode) (c : Codecs) (cfg : Config) (host : Bytes)
    → (should_intercept (main_deps u c cfg) host ≡ true) ↔ (
        (host ≡ cfg.hostname)
        ⊎ ((host ≡ cfg.hostname ++ (codes ":" ++ cfg.port))
            ⊎ ((domain : Bytes) × Memᴰ domain discord_host_suffixes
                × IsWithin domain (host_name u host))))
unfolding should_intercept is_relay main_deps
main_deps-should_intercept_iff u c cfg host =
    let own = equal_iff host cfg.hostname in
    let own_port = equal_iff host (cfg.hostname ++ (codes ":" ++ cfg.port)) in
    let discord = is_discord_host_iff u host in
    let either =
      or_iff (equal host (cfg.hostname ++ (codes ":" ++ cfg.port))) (equal host cfg.hostname)
        (is_discord_host u host) in
    (
      λ h. elim (either.0 h) [
        | inl e ↦ inl (own.0 e)
        | inr (inl e) ↦ inr (inl (own_port.0 e))
        | inr (inr d) ↦ inr (inr (discord.0 d))
      ],
      λ h. either.1 (elim h [
        | inl e ↦ inl (own.1 e)
        | inr (inl e) ↦ inr (inl (own_port.1 e))
        | inr (inr d) ↦ inr (inr (discord.1 d))
      ]),
    )

-- The health endpoint answers 200 until Serve has returned, which is when Accept has failed under a
-- cancelled context, and 503 from then on.
pub health-serve :
    (accepts : List Accepted)
    → (health (serve accepts).ready).0 ≡ (if is_cancelled accepts then 503 else 200)
unfolding health
health-serve accepts = rw (serve-connections accepts) (ground arith)
