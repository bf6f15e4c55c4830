-- ===== src/Handlers/Https/Pump.antt =====
-- The blind pump of HttpsHandler, for a host that is not inspected: two copies by io.Copy, each of
-- which closes both connections when it returns. They run concurrently; a schedule says whose copy
-- makes its next read and write.
pub mod Relayed
use hallmaster_proxy.Base.{Bool, true, false, ◌||◌, List, [], ◌∷◌, ◌++◌, if◌then◌else◌}
use hallmaster_proxy.Text.{Bytes}

-- A read, and whether the write behind it fails. After its end or an error a copy returns.
pub data Chunk : Type 0 where
  chunk : Bytes → Bool → Chunk
  ended : Chunk

pub data Copy : Type 0 where
  from_client : Chunk → Copy
  from_server : Chunk → Copy

pub data Event : Type 0 where
  to_server : Bytes → Event
  to_client : Bytes → Event
  close_both : Event

-- The copies that have returned.
pub record Copies : Type 0 where
  pub client_done : Bool
  pub server_done : Bool

abbrev pub closed : Copies → Bool
closed st = st.client_done || st.server_done

abbrev pub copying : Copies
copying = record { client_done = false; server_done = false }

abbrev pub client_returns : Bool → Copies → Copies × List Event
client_returns true st = (record st { client_done = true }, close_both ∷ [])
client_returns false st = (st, [])

abbrev pub server_returns : Bool → Copies → Copies × List Event
server_returns true st = (record st { server_done = true }, close_both ∷ [])
server_returns false st = (st, [])

abbrev pub then_event : Event → Copies × List Event → Copies × List Event
then_event e (st, events) = (st, e ∷ events)

-- io.Copy(serverTLS, clientReader); on closed connections it returns.
unfoldable pub copy_from_client : Copies → Chunk → Copies × List Event
copy_from_client st ended = client_returns true st
copy_from_client st (chunk b failed) =
    if closed st
    then client_returns true st
    else then_event (to_server b) (client_returns failed st)

-- io.Copy(clientTLS, serverReader)
unfoldable pub copy_from_server : Copies → Chunk → Copies × List Event
copy_from_server st ended = server_returns true st
copy_from_server st (chunk b failed) =
    if closed st
    then server_returns true st
    else then_event (to_client b) (server_returns failed st)

-- A copy that has returned does nothing.
unfoldable pub copy : Copies → Copy → Copies × List Event
unfolding copy_from_client copy_from_server
copy st (from_client c) = if st.client_done then (st, []) else copy_from_client st c
copy st (from_server c) = if st.server_done then (st, []) else copy_from_server st c

unfoldable pub pump : Copies → List Copy → Copies × List Event
unfolding copy
pump st [] = (st, [])
pump st (c ∷ copies) =
    let (st', events) = copy st c in let (last, later) = pump st' copies in (last, events ++ later)
