-- ===== src/Driver/Setup/Ready.antt =====
-- The driver measures only what it has prepared in full.
use hallmaster_proxy.Base.{true, false, ◌||◌, List, [], ◌∷◌, ◌++◌, none, ok, ◌≡◌, Bool}
use hallmaster_proxy.Text.{Bytes}
use hallmaster_proxy.Driver.Control.{Created, Json, gateway_url}
use hallmaster_proxy.Driver.Recorder.{Mode, mode_gateway, mode_rest, directly, proxied}
use hallmaster_proxy.Driver.Setup.{
  Act, gets_gateway, connects, waits, runs, settles, Answers, Setup, query, direct_gateway,
}

-- The acts that belong to the work itself.
abbrev pub is_work : Act → Bool
is_work waits = true
is_work (runs n) = true
is_work settles = true
is_work _ = false

abbrev pub has_work : List Act → Bool
has_work [] = false
has_work (act ∷ acts) = is_work act || has_work acts

-- What stands between the session and the work: in a gateway scenario the URL for the shard, and
-- both shards, connected.
abbrev pub IsPrepared : Mode → Json → Answers → Bytes → Created → List Act → Type 0
IsPrepared mode_rest json a direct_url made acts = acts ≡ []
IsPrepared mode_gateway json a direct_url made acts =
    (url : Bytes) × (gateway_url json a.gateway ≡ ok url)
    × (a.connect directly (direct_gateway direct_url) ≡ none)
    × (a.connect proxied (url ++ query) ≡ none)
    × (acts
        ≡ gets_gateway made.token
          ∷ connects directly (direct_gateway direct_url) made.token
          ∷ connects proxied (url ++ query) made.token
          ∷ [])
