-- ===== src/Tamper/PassThrough.antt =====
-- Tamperers that observe and rewrite nothing.
use hallmaster_proxy.Base.{Bool, Option, none, some, ok, ◌≡◌, refl, ap, sym, subst}
use hallmaster_proxy.Text.{Bytes}
use hallmaster_proxy.Http.{Request, Response, Body, rewound}
use hallmaster_proxy.Tamper.{Tamperer, passed, nop}
use hallmaster_proxy.Tamper.Logging.{Log, logging}

abbrev pub whole_body : Option Bytes → Option Body
whole_body none = none
whole_body (some b) = some (rewound b)

-- Every hook returns what it was given, where the request's body, if it has one, can be read.
pub record IsPassThrough {S : Type 0} (t : Tamperer S) : Type 0 where
  pub same_request :
      (req : Request) (b : Option Bytes) (s : S)
      → (t.request (record req { body = whole_body b }) s).1
        ≡ passed (record req { body = whole_body b })
  pub same_response :
      (req : Request) (resp : Response) (d : Option Bytes) (s : S)
      → (t.response req resp d s).1 ≡ passed resp
  pub same_incoming : (payload : Bytes) (s : S) → (t.ws_incoming payload s).1 ≡ ok payload
  pub same_outgoing : (payload : Bytes) (s : S) → (t.ws_outgoing payload s).1 ≡ ok payload

pub same_request_of :
    {S : Type 0} (t : Tamperer S) (pass : IsPassThrough t) (req : Request) (b : Option Bytes)
    (s : S)
    → req.body ≡ whole_body b
    → (t.request req s).1 ≡ passed req
same_request_of t pass req b s h =
    subst (λ (r : Request). (t.request r s).1 ≡ passed r)
      (ap (λ (x : Option Body). record req { body = x }) (sym h)) (pass.same_request req b s)

-- The no-op tamperer rewrites nothing.
pub nop-IsPassThrough : (S : Type 0) → IsPassThrough (nop {S = S})
unfolding nop
nop-IsPassThrough S = record {
  same_request = λ req b s. refl;
  same_response = λ req resp d s. refl;
  same_incoming = λ payload s. refl;
  same_outgoing = λ payload s. refl;
}

logging_request_same :
    (log_bodies : Bool) (req : Request) (b : Option Bytes) (log : Log)
    → ((logging log_bodies).request (record req { body = whole_body b }) log).1
      ≡ passed (record req { body = whole_body b })
unfolding logging
logging_request_same log_bodies req none log = refl
logging_request_same log_bodies req (some b) log = refl

-- The Logging tamperer rewrites nothing, whether it logs bodies or not: it reads a request's body
-- and rewinds it.
pub logging-IsPassThrough : (log_bodies : Bool) → IsPassThrough (logging log_bodies)
unfolding logging
logging-IsPassThrough log_bodies = record {
  same_request = logging_request_same log_bodies;
  same_response = λ req resp d log. refl;
  same_incoming = λ payload log. refl;
  same_outgoing = λ payload log. refl;
}
