-- ===== src/Handlers/Https/Client.antt =====
-- A client's view of a session: requests, responses and layers in order.
pub mod Ordered
use hallmaster_proxy.Base.{
  ℕ, ap, ◌+◌, Bool, true, false, List, Option, none, some, ◌≡◌, ◌==◌, follows,
}
use hallmaster_proxy.Handlers.Https.State.{
  Event, established, close_upstream, dial, forward, respond, close_body, pump, inspect,
}

-- Between two requests, directly behind a response or not; behind a request that went out; behind its
-- response, whose body is still open; and behind the last thing that the handler does for the
-- client.
pub data Phase : Type 0 where
  waiting : Bool → Phase
  asked : Phase
  answered : Phase
  finished : Phase

-- The innermost TLS layer, and the phase.
abbrev pub Place : Type 0
Place = ℕ × Phase

abbrev on_layer : Bool → Place → Option Place
on_layer true p = some p
on_layer false p = none

abbrev pub follow : Place → Event → Option Place
follow (n, waiting b) (established layer host) = on_layer (layer == n) (n + 1, waiting false)
follow (n, waiting b) (dial d conn) = some (n, waiting false)
follow (n, waiting b) (forward conn host req) = some (n, asked)
follow (n, waiting true) (inspect conn layer compressed) = on_layer (layer == n) (n, finished)
follow (n, asked) (respond layer resp) = on_layer (layer == n) (n, answered)
follow (n, asked) close_body = some (n, finished)
follow (n, asked) (pump conn layer) = on_layer (layer == n) (n, finished)
follow (n, answered) close_body = some (n, waiting true)
follow p (close_upstream conn) = some p
follow _ _ = none

abbrev pub follow_all : Place → List Event → Option Place
follow_all = follows follow

-- The events were all allowed, and no response's body is open.
abbrev pub IsShut : Option Place → Type 0
IsShut none = ⊥
IsShut (some (n, answered)) = ⊥
IsShut (some (n, _)) = Unit

-- The client is waited for on a layer.
abbrev pub IsReady : ℕ → Option Place → Type 0
IsReady m (some (n, waiting b)) = n ≡ m
IsReady m _ = ⊥

pub IsReady-some : (m : ℕ) (o : Option Place) → IsReady m o → (b : Bool) × (o ≡ some (m, waiting b))
IsReady-some m (some (n, waiting b)) h = (b, ap (λ (k : ℕ). some (k, waiting b)) h)
IsReady-some m (some (n, asked)) h = absurd h
IsReady-some m (some (n, answered)) h = absurd h
IsReady-some m (some (n, finished)) h = absurd h
IsReady-some m none h = absurd h
