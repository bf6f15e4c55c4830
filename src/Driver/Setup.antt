-- ===== src/Driver/Setup.antt =====
-- runScenario of tests/stress/driver/main.go: what the driver prepares before the operations, in its
-- order, and how it ends.
pub mod Ready
use hallmaster_proxy.Base.{ℕ, zero, suc, List, [], ◌∷◌, ◌++◌, Option, none, some, Result, ok, err}
use hallmaster_proxy.Text.{Bytes, codes}
use hallmaster_proxy.Driver.{Scenario, compute_target}
use hallmaster_proxy.Driver.Control.{
  Reply, ControlError, Created, Json, create_session, disable_loop_protection, gateway_url,
}
use hallmaster_proxy.Driver.Recorder.{Mode, mode_gateway, mode_rest, Via, directly, proxied}
use hallmaster_proxy.Driver.Shard.{cut_prefix}

-- The requests and what follows; `connects` has the URL and the token.
pub data Act : Type 0 where
  posts_session : Act
  posts_loop_protection : Bytes → Act
  gets_gateway : Bytes → Act
  connects : Via → Bytes → Bytes → Act
  -- the wait of an idle scenario
  waits : Act
  -- runOps, with the number of operations
  runs : ℕ → Act
  -- the wait for events in flight
  settles : Act

pub data SetupError : Type 0 where
  session : ControlError → SetupError
  loop_protection : ControlError → SetupError
  gateway_bot : ControlError → SetupError
  connection : Via → Bytes → SetupError

-- What the environment answers, connectGateway included.
pub record Answers : Type 0 where
  pub session : Result Bytes Reply
  pub loop : Result Bytes Reply
  pub gateway : Result Bytes Reply
  pub connect : Via → Bytes → Option Bytes

abbrev pub Setup : Type 0 → Type 0
Setup A = List Act × Result SetupError A

abbrev pub also : {A : Type 0} → List Act → Setup A → Setup A
also acts (more, r) = (acts ++ more, r)

infixl 5 ◌>>=◌ ◌>>◌
abbrev pub ◌>>=◌ : {A B : Type 0} → Setup A → (A → Setup B) → Setup B
◌>>=◌ (acts, ok a) f = also acts (f a)
◌>>=◌ (acts, err e) f = (acts, err e)

abbrev pub ◌>>◌ : {A B : Type 0} → Setup A → Setup B → Setup B
a >> b = a >>= λ _. b

abbrev attempt : {A : Type 0} → Act → (ControlError → SetupError) → Result ControlError A → Setup A
attempt act wrap (ok a) = (act ∷ [], ok a)
attempt act wrap (err e) = (act ∷ [], err (wrap e))

abbrev connected : Act → Via → Option Bytes → Setup Unit
connected act via none = (act ∷ [], ok tt)
connected act via (some e) = (act ∷ [], err (connection via e))

-- strings.TrimPrefix
abbrev pub trim_prefix : Bytes → Bytes → Bytes
trim_prefix s prefix = elim (cut_prefix s prefix) [ some rest ↦ rest | none ↦ s ]

abbrev pub query : Bytes
query = codes "/?v=10&encoding=json"

abbrev pub direct_gateway : Bytes → Bytes
direct_gateway direct_url = codes "wss://" ++ (trim_prefix direct_url (codes "https://") ++ query)

unfoldable pub connect_both : Json → Answers → Bytes → Created → Setup Unit
unfolding cut_prefix
connect_both json a direct_url made = do
  url ← attempt (gets_gateway made.token) gateway_bot (gateway_url json a.gateway)
  connected (connects directly (direct_gateway direct_url) made.token) directly
      (a.connect directly (direct_gateway direct_url))
  connected (connects proxied (url ++ query) made.token) proxied (a.connect proxied (url ++ query))

unfoldable pub prepared : Mode → Json → Answers → Bytes → Created → Setup Unit
unfolding connect_both
prepared mode_gateway json a direct_url made = connect_both json a direct_url made
prepared mode_rest json a direct_url made = ([], ok tt)

-- What is done with the target.
unfoldable pub worked : Mode → ℕ → List Act
worked mode zero = waits ∷ []
worked mode_gateway (suc n) = runs (suc n) ∷ settles ∷ []
worked mode_rest (suc n) = runs (suc n) ∷ []

unfoldable pub run_scenario : Mode → Scenario → Json → Answers → Bytes → Setup Unit
unfolding prepared worked create_session disable_loop_protection gateway_url compute_target
run_scenario mode scn json a direct_url = do
  made ← attempt posts_session SetupError.session (create_session json a.session)
  attempt (posts_loop_protection made.session_id) loop_protection
      (disable_loop_protection json a.loop)
  prepared mode json a direct_url made
  (worked mode (compute_target scn), ok tt)
