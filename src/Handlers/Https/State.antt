-- ===== src/Handlers/Https/State.antt =====
-- The state of a client session, its collaborators, and the events that others can see.
use hallmaster_proxy.Base.{ℕ, Bool, true, false, List, [], ◌∷◌, ◌++◌, Option, none, some, Result}
use hallmaster_proxy.Text.{Bytes, Unicode}
use hallmaster_proxy.Http.{Request, Response}
use hallmaster_proxy.Httpio.{Codecs}
use hallmaster_proxy.Tamper.{Tamperer}

-- The fields of crypto/tls.Config that are set here or documented to travel through.
pub record TlsConfig : Type 0 where
  pub root_cas : List Bytes
  pub insecure_skip_verify : Bool
  pub server_name : Bytes
  pub next_protos : List Bytes

-- internals.HandlerDeps, with the libraries behind the handler.
pub record Deps (S : Type 0) : Type 0 where
  pub proxy_host_port : Bytes
  pub clean_hostname : Bytes
  pub tamperer : Tamperer S
  pub upstream_tls_config : Option TlsConfig
  pub unicode : Unicode
  pub codecs : Codecs

pub record Dial : Type 0 where
  pub network : Bytes
  pub address : Bytes
  pub config : TlsConfig

-- What the environment answers in one round; errors are texts, and nil is `none`. The responses
-- are read before the handler sets anything on them.
pub record Answers : Type 0 where
  pub handshake : Bytes → Option Bytes
  pub resolve : Bytes → Result Bytes Bytes
  pub dial : Dial → Option Bytes
  pub write_request : Request → Option Bytes
  pub read_response : Request → Result Bytes Response
  pub write_response : Response → Option Bytes

-- What http.ReadRequest finds on the client's side.
pub data Turn : Type 0 where
  broken : Bytes → Turn
  asks : Request → Answers → Turn

-- The locals of HttpsHandler. The client's TLS layers and the upstream connections are numbered in
-- the order of their making.
pub record Session (S : Type 0) : Type 0 where
  pub layer : ℕ
  pub server : Option ℕ
  pub dialled_host : Bytes
  pub connect_depth : ℕ
  pub dials : ℕ
  pub tamper_state : S

pub data Event : Type 0 where
  -- "200 Connection established" on a layer, then a handshake for the host
  established : ℕ → Bytes → Event
  dial : Dial → ℕ → Event
  close_upstream : ℕ → Event
  -- a write of a request to an upstream, and the Host that the client named
  forward : ℕ → Bytes → Request → Event
  -- a write of a response to a layer of the client
  respond : ℕ → Response → Event
  close_body : Event
  -- the blind copy in both directions, and InspectWS with its compression flag
  pump : ℕ → ℕ → Event
  inspect : ℕ → ℕ → Bool → Event

pub data Outcome (S : Type 0) : Type 0 where
  next : Session S → Outcome S
  stop : Session S → Outcome S

abbrev pub Ran : Type 0 → Type 0
Ran S = List Event × Outcome S

module _ {S : Type 0} where
  abbrev pub emit : List Event → Ran S → Ran S
  emit events (later, outcome) = (events ++ later, outcome)

  abbrev pub session_of : Outcome S → Session S
  session_of (next s) = s
  session_of (stop s) = s

  -- The handler returns.
  abbrev pub returns : Outcome S → Bool
  returns (next s) = false
  returns (stop s) = true

  unfoldable pub closed : Session S → Option ℕ → Session S × List Event
  closed s none = (s, [])
  closed s (some conn) = (record s { server = none; dialled_host = [] }, close_upstream conn ∷ [])

  -- if serverTLS != nil: close it and forget it
  unfoldable pub drop_upstream : Session S → Session S × List Event
  unfolding closed
  drop_upstream s = closed s s.server

  -- the deferred close
  unfoldable pub close_at_return : Session S → List Event
  unfolding drop_upstream
  close_at_return s = (drop_upstream s).1

  abbrev pub start : S → Session S
  start t = record {
    layer = 0;
    server = none;
    dialled_host = [];
    connect_depth = 0;
    dials = 0;
    tamper_state = t;
  }
