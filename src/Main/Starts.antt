-- ===== src/Main/Starts.antt =====
-- When the proxy serves, and that it exits otherwise.
use hallmaster_proxy.Base.{
  ℕ, Bool, true, false, List, [], ◌∷◌, Option, none, some, ok, ◌==◌, ◌≡◌, ◌↔◌, if◌then◌else◌, refl,
  arith, inl, inr, Result-cases, Option-cases,
}
use hallmaster_proxy.Text.{Bytes}
use hallmaster_proxy.Certs.Load.{new}
use hallmaster_proxy.Config.{Config, load}
use hallmaster_proxy.Main.{
  World, Wired, Event, health_server, serving, exit, wired, listen_address, listen, overridden,
  with_ca, with_config, main, health_address, beside_health, then_exit,
}

abbrev pub exits : List Event → Bool
exits [] = false
exits (exit status ∷ events) = true
exits (_ ∷ events) = exits events

-- The address and the dependencies with which the proxy serves and goes on serving: no exit comes
-- before or behind it.
abbrev pub served : List Event → Option (Bytes × Wired)
served [] = none
served (serving address w ∷ events) = if exits events then none else some (address, w)
served (health_server address ∷ events) = served events
served (exit status ∷ events) = none

-- The process ends with status 1.
abbrev pub fails : List Event → Bool
fails [] = false
fails (serving address w ∷ events) = fails events
fails (health_server address ∷ events) = fails events
fails (exit status ∷ events) = status == 1

-- Everything that main needs is there.
pub record IsStarted (world : World) (cfg : Config) (ca : ℕ × ℕ) (address : Bytes) (w : Wired)
    : Type 0 where
  pub loaded : load world.env ≡ ok cfg
  pub ca_loaded : new world.loader cfg.ca_cert_path cfg.ca_key_path ≡ ok ca
  pub bound : world.listen (listen_address cfg) ≡ none
  pub healthy : world.health (health_address cfg) ≡ none
  pub at : address ≡ listen_address cfg
  pub with_deps : w ≡ wired world cfg ca

module _ (world : World) where
  IsStarted-served :
      (cfg : Config) (ca : ℕ × ℕ) (address : Bytes) (w : Wired)
      → IsStarted world cfg ca address w
      → served (main world none) ≡ some (address, w)
  unfolding main with_config with_ca overridden listen beside_health
  IsStarted-served cfg ca address w started =
      rw
        (
          started.loaded, started.ca_loaded, started.healthy, started.bound, started.at,
          started.with_deps,
        )
        refl

  served_at :
      (cfg : Config) (ca : ℕ × ℕ) (address : Bytes) (w : Wired)
      → load world.env ≡ ok cfg
      → new world.loader cfg.ca_cert_path cfg.ca_key_path ≡ ok ca
      → served (main world none) ≡ some (address, w)
      → IsStarted world cfg ca address w
  unfolding main with_config with_ca overridden listen beside_health then_exit
  served_at cfg ca address w loads loads_ca h =
      elim (Option-cases (world.listen (listen_address cfg))) [
        | inr (e, binds) ↦ ground arith
        | inl binds ↦ elim (Option-cases (world.health (health_address cfg))) [
          | inr (e, fails) ↦ ground arith
          | inl healthy ↦ record {
            loaded = loads;
            ca_loaded = loads_ca;
            bound = binds;
            healthy = healthy;
            at = ground arith;
            with_deps = ground arith;
          }
        ]
      ]

  served-IsStarted :
      (address : Bytes) (w : Wired)
      → served (main world none) ≡ some (address, w)
      → (cfg : Config) × (ca : ℕ × ℕ) × IsStarted world cfg ca address w
  unfolding main with_config with_ca
  served-IsStarted address w h = elim (Result-cases (load world.env)) [
    | inr (e, loads) ↦ ground arith
    | inl (cfg, loads) ↦ elim (Result-cases (new world.loader cfg.ca_cert_path cfg.ca_key_path)) [
      | inr (e, loads_ca) ↦ ground arith
      | inl (ca, loads_ca) ↦ (cfg, ca, served_at cfg ca address w loads loads_ca h)
    ]
  ]

  not_served-fails : served (main world none) ≡ none → fails (main world none) ≡ true
  unfolding main with_config with_ca overridden listen beside_health then_exit
  not_served-fails h = elim (Result-cases (load world.env)) [
    | inr (e, loads) ↦ rw loads refl
    | inl (cfg, loads) ↦ elim (Result-cases (new world.loader cfg.ca_cert_path cfg.ca_key_path)) [
      | inr (e, loads_ca) ↦ rw (loads, loads_ca) refl
      | inl (ca, loads_ca) ↦ elim (Option-cases (world.listen (listen_address cfg))) [
        | inr (e, binds) ↦ ground arith
        | inl binds ↦ ground arith
      ]
    ]
  ]

-- In production, the proxy serves, and is not ended by its health server, exactly if the
-- configuration and the CA load, its port can be bound, and the health server's can; it then serves
-- on its port, on every address, with the dependencies of that configuration. In every other case
-- the process exits with status 1.
pub main-served :
    (world : World)
    → ((address : Bytes) (w : Wired)
        → (served (main world none) ≡ some (address, w))
          ↔ ((cfg : Config) × (ca : ℕ × ℕ) × IsStarted world cfg ca address w))
      × (served (main world none) ≡ none → fails (main world none) ≡ true)
main-served world = (
  λ address w. (
    served-IsStarted world address w,
    λ (cfg, ca, started). IsStarted-served world cfg ca address w started,
  ),
  not_served-fails world,
)
