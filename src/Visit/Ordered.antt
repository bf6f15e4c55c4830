-- ===== src/Visit/Ordered.antt =====
-- The order of all events on one client connection.
use hallmaster_proxy.Handlers.Https.State
use hallmaster_proxy.Handlers.Https
use hallmaster_proxy.Handlers.Https.Upstream.{Upstream}
use hallmaster_proxy.Handlers.Https.Upstream
use hallmaster_proxy.Handlers.Https.Pump
use hallmaster_proxy.Mitm
use hallmaster_proxy.Mitm.Connection
use hallmaster_proxy.Visit.Place.{Place}
