-- ===== src/Handlers/Https/Pump/Relayed.antt =====
-- What the blind pump relays.
use hallmaster_proxy.Base.{
  ℕ, ◌+◌, Bool, true, false, List, [], ◌∷◌, ◌++◌, ◌≡◌, refl, ap, ap₂, ◌∙◌, arith, if◌then◌else◌,
  append_assoc,
}
use hallmaster_proxy.Text.{Bytes}
use hallmaster_proxy.Handlers.Https.Pump.{
  chunk, ended, Copy, from_client, from_server, Event, to_server, to_client, close_both, Copies,
  closed, copying, copy, pump,
}

abbrev pub server_receives : List Event → Bytes
server_receives [] = []
server_receives (to_server b ∷ events) = b ++ server_receives events
server_receives (_ ∷ events) = server_receives events

abbrev pub client_receives : List Event → Bytes
client_receives [] = []
client_receives (to_client b ∷ events) = b ++ client_receives events
client_receives (_ ∷ events) = client_receives events

abbrev pub closes : List Event → ℕ
closes [] = 0
closes (close_both ∷ events) = closes events + 1
closes (_ ∷ events) = closes events

abbrev pub one_if : Bool → ℕ
one_if true = 1
one_if false = 0

-- A read or a write that ends its copy.
abbrev pub ends : Copy → Bool
ends (from_client ended) = true
ends (from_client (chunk b failed)) = failed
ends (from_server ended) = true
ends (from_server (chunk b failed)) = failed

-- What is read before either copy ends, its last chunk included.
pub until_end : List Copy → List Copy
until_end [] = []
until_end (c ∷ copies) = let rest = until_end copies in c ∷ (if ends c then [] else rest)

abbrev pub client_sent : List Copy → Bytes
client_sent [] = []
client_sent (from_client (chunk b failed) ∷ copies) = b ++ client_sent copies
client_sent (_ ∷ copies) = client_sent copies

abbrev pub server_sent : List Copy → Bytes
server_sent [] = []
server_sent (from_server (chunk b failed) ∷ copies) = b ++ server_sent copies
server_sent (_ ∷ copies) = server_sent copies

receives-append :
    (a b : List Event)
    → (server_receives (a ++ b) ≡ server_receives a ++ server_receives b)
      × (client_receives (a ++ b) ≡ client_receives a ++ client_receives b)
      × (closes (a ++ b) ≡ closes a + closes b)
receives-append [] b = (refl, refl, omega arith)
receives-append (to_server x ∷ a) b =
    let (p, q, r) = receives-append a b in (simp (p, append_assoc), q, r)
receives-append (to_client x ∷ a) b =
    let (p, q, r) = receives-append a b in (p, simp (q, append_assoc), r)
receives-append (close_both ∷ a) b = let (p, q, r) = receives-append a b in (p, q, omega (arith, r))

copy-closed :
    (st : Copies) (c : Copy)
    → closed st ≡ true
    → (closed (copy st c).0 ≡ true)
      × (server_receives (copy st c).1 ≡ [])
      × (client_receives (copy st c).1 ≡ [])
unfolding copy
copy-closed st (from_client ended) h = ground arith
copy-closed st (from_client (chunk b failed)) h = ground arith
copy-closed st (from_server ended) h = ground arith
copy-closed st (from_server (chunk b failed)) h = ground arith

copy-closes :
    (st : Copies) (c : Copy)
    → closes (copy st c).1 + one_if st.client_done + one_if st.server_done
      ≡ one_if (copy st c).0.client_done + one_if (copy st c).0.server_done
unfolding copy
copy-closes st (from_client ended) = ground arith
copy-closes st (from_client (chunk b failed)) = ground arith
copy-closes st (from_server ended) = ground arith
copy-closes st (from_server (chunk b failed)) = ground arith

pump-closed :
    (st : Copies) (copies : List Copy)
    → closed st ≡ true
    → (server_receives (pump st copies).1 ≡ []) × (client_receives (pump st copies).1 ≡ [])
unfolding pump
pump-closed st [] h = (refl, refl)
pump-closed st (c ∷ copies) h =
    let (st', events) = copy st c in
    let (h', no_server, no_client) = copy-closed st c h in
    let (none_later, none_later') = pump-closed st' copies h' in
    let (p, q, r) = receives-append events (pump st' copies).1 in
    (
      p ∙ ap₂ (λ (a b : Bytes). a ++ b) no_server none_later,
      q ∙ ap₂ (λ (a b : Bytes). a ++ b) no_client none_later',
    )

pump-closes :
    (st : Copies) (copies : List Copy)
    → closes (pump st copies).1 + one_if st.client_done + one_if st.server_done
      ≡ one_if (pump st copies).0.client_done + one_if (pump st copies).0.server_done
unfolding pump
pump-closes st [] = omega arith
pump-closes st (c ∷ copies) =
    let (st', events) = copy st c in
    omega (
      arith,
      (receives-append events (pump st' copies).1).2,
      copy-closes st c,
      pump-closes st' copies,
    )

relays :
    (copies : List Copy)
    → (server_receives (pump copying copies).1 ≡ client_sent (until_end copies))
      × (client_receives (pump copying copies).1 ≡ server_sent (until_end copies))
unfolding pump copy until_end
relays [] = (refl, refl)
relays (from_client ended ∷ copies) = pump-closed _ copies refl
relays (from_server ended ∷ copies) = pump-closed _ copies refl
relays (from_client (chunk b true) ∷ copies) =
    let (p, q) = pump-closed (record copying { client_done = true }) copies refl in
    (ap (λ (x : Bytes). b ++ x) p, q)
relays (from_server (chunk b true) ∷ copies) =
    let (p, q) = pump-closed (record copying { server_done = true }) copies refl in
    (p, ap (λ (x : Bytes). b ++ x) q)
relays (from_client (chunk b false) ∷ copies) =
    let (p, q) = relays copies in (ap (λ (x : Bytes). b ++ x) p, q)
relays (from_server (chunk b false) ∷ copies) =
    let (p, q) = relays copies in (p, ap (λ (x : Bytes). b ++ x) q)

-- However the two copies interleave, each side is written what the other has sent, in order, up to
-- the first end of either copy, a write that fails included; what comes later is not relayed in either direction. Each copy that
-- has returned has closed both connections once, and nothing else closes them.
pub pump-relays :
    (copies : List Copy)
    → let (last, events) = pump copying copies in
      (server_receives events ≡ client_sent (until_end copies))
      × (client_receives events ≡ server_sent (until_end copies))
      × (closes events ≡ one_if last.client_done + one_if last.server_done)
pump-relays copies = let (p, q) = relays copies in (p, q, omega (arith, pump-closes copying copies))
