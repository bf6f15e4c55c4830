-- ===== src/Handlers/Https/Fallback.antt =====
-- A tamperer that fails without changing anything is no critical path: the session goes on as with
-- the no-op.
use hallmaster_proxy.Base.{List, Option, ◌≡◌}
use hallmaster_proxy.Text.{Bytes}
use hallmaster_proxy.Http.{Request, Response}
use hallmaster_proxy.Tamper.{Tamperer, nop}
use hallmaster_proxy.Handlers.Https.State.{Deps, Session, Turn}
use hallmaster_proxy.Handlers.Https.Exchange.{settle}
use hallmaster_proxy.Handlers.Https.{run}
use hallmaster_proxy.Handlers.Https.Erased.{Mimics, stateless, erase, run-erased}

-- Every call leaves its argument alone and returns an error or an equal object.
pub record IsHarmless {S : Type 0} (t : Tamperer S) : Type 0 where
  pub request_settles : (req : Request) (s : S) → settle (t.request req s).1 ≡ req
  pub response_settles :
      (req : Request) (resp : Response) (d : Option Bytes) (s : S)
      → settle (t.response req resp d s).1 ≡ resp

abbrev pub nop_deps : {S : Type 0} → Deps S → Deps (Unit {0})
nop_deps deps = stateless nop deps

IsHarmless-Mimics : {S : Type 0} (t : Tamperer S) → IsHarmless t → Mimics t nop
unfolding nop settle
IsHarmless-Mimics t harmless = record {
  request_settles = λ req s. harmless.request_settles req s;
  response_settles = λ req resp d s. harmless.response_settles req resp d s;
}

-- With a tamperer whose calls on requests and responses all leave the object that they are given
-- unchanged, and either fail or return an equal one, a client session shows the same events as with
-- the no-op tamperer.
pub run_harmless :
    {S : Type 0} (deps : Deps S) (harmless : IsHarmless deps.tamperer) (s : Session S)
    (turns : List Turn)
    → run deps s turns ≡ run (nop_deps deps) (erase s) turns
run_harmless deps harmless s turns =
    run-erased deps nop (IsHarmless-Mimics deps.tamperer harmless) s turns
