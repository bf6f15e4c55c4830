-- ===== src/Tamper/Logging/Private.antt =====
-- What the records of the Logging tamperer show when LogBodies is off, and what a failed read does.
use hallmaster_proxy.Base.{Bool, true, false, [], some, ◌≡◌, refl, length}
use hallmaster_proxy.Text.{Bytes}
use hallmaster_proxy.Http.{Body, Request, Response, rewound}
use hallmaster_proxy.Tamper.{passed}
use hallmaster_proxy.Tamper.Logging.{Log, logging}

abbrev pub with_body_of : Request → Bytes → Request
with_body_of req b = record req { body = some (rewound b) }

-- With LogBodies off the log depends on the lengths of bodies and payloads only: two of the same
-- length leave the same records, for each of the four hooks.
pub logging_private :
    (req : Request) (resp : Response) (p q : Bytes) (log : Log)
    → length p ≡ length q
    → (((logging false).request (with_body_of req p) log).0
        ≡ ((logging false).request (with_body_of req q) log).0)
      × (((logging false).response req resp (some p) log).0
          ≡ ((logging false).response req resp (some q) log).0)
      × (((logging false).ws_incoming p log).0 ≡ ((logging false).ws_incoming q log).0)
      × (((logging false).ws_outgoing p log).0 ≡ ((logging false).ws_outgoing q log).0)
unfolding logging
logging_private req resp p q log e = (rw e refl, rw e refl, rw e refl, rw e refl)

-- A request whose body breaks off is passed on with an empty body instead of its own.
pub logging_request_broken :
    (log_bodies : Bool) (req : Request) (body : Body) (log : Log)
    → req.body ≡ some body
    → body.broken ≡ true
    → ((logging log_bodies).request req log).1 ≡ passed (record req { body = some (rewound []) })
unfolding logging
logging_request_broken log_bodies req body log e broken = rw (e, broken) refl
