-- ===== src/Driver/Shard/Delivered.antt =====
-- The events that the driver injects come back to it by their numbers.
use hallmaster_proxy.Base.{
  ℕ, ◌^◌, ◌<◌, true, false, List, [], ◌∷◌, ◌++◌, none, some, ℤ, pos, map, ◌≡◌, refl, ap, ◌∙◌, arith,
  drop_prefix,
}
use hallmaster_proxy.Text.{Bytes, codes, equal, has_prefix}
use hallmaster_proxy.Text.Decimal.{itoa}
use hallmaster_proxy.Text.Atoi.{atoi-itoa}
use hallmaster_proxy.Driver.Shard.{
  Incoming, message, Frame, Notice, Json, Event, identify, ready, on_event, nonce_prefix, nonce_of,
  cut_prefix, number_in, noticed, read_events, is_ready, awaited, await_ready, connect_gateway,
}

-- Messages before READY, which the shard passes over.
pub data Waits (json : Json) : List Incoming → Type 0 where
  at_once : Waits json []
  another :
      (m : Bytes) (f : Frame) {rest : List Incoming}
      → json.frame m ≡ some f
      → is_ready f ≡ false
      → Waits json rest
      → Waits json (message m ∷ rest)

-- Messages behind READY, which bring the events of these operations and others of no concern.
pub data Delivers (json : Json) : List Incoming → List ℕ → Type 0 where
  no_more : Delivers json [] []
  foreign :
      (m : Bytes) (notice : Notice) {rest : List Incoming} {ops : List ℕ}
      → json.notice m ≡ some notice
      → equal notice.t (codes "MESSAGE_CREATE") ≡ false
      → Delivers json rest ops
      → Delivers json (message m ∷ rest) ops
  own :
      (m : Bytes) (i : ℕ) {rest : List Incoming} {ops : List ℕ}
      → i < 2 ^ 63
      → json.notice m ≡ some (record { t = codes "MESSAGE_CREATE"; nonce = nonce_of i })
      → Delivers json rest ops
      → Delivers json (message m ∷ rest) (i ∷ ops)

has_prefix-append : (a b : Bytes) → has_prefix (a ++ b) a ≡ true
unfolding has_prefix
has_prefix-append [] b = refl
has_prefix-append (x ∷ a) b = ground (arith, has_prefix-append a b)

cut_prefix-append : (a b : Bytes) → cut_prefix (a ++ b) a ≡ some b
unfolding cut_prefix
cut_prefix-append a b = rw (has_prefix-append a b) (ap some (drop_prefix a b))

number_in-nonce_of :
    (i : ℕ) → i < 2 ^ 63 → number_in (cut_prefix (nonce_of i) nonce_prefix) ≡ on_event (pos i) ∷ []
unfolding nonce_of number_in
number_in-nonce_of i small =
    rw (cut_prefix-append nonce_prefix (itoa i)) (rw (atoi-itoa i small) refl)

read_events-Delivers :
    (json : Json) (behind : List Incoming) (ops : List ℕ)
    → Delivers json behind ops
    → read_events json behind ≡ map (λ i. on_event (pos i)) ops
unfolding read_events noticed
read_events-Delivers json _ _ no_more = refl
read_events-Delivers json _ ops (foreign m notice {rest} decoded other later) =
    rw decoded (rw other (read_events-Delivers json rest ops later))
read_events-Delivers json _ _ (own m i {rest} {ops} small decoded later) = rw decoded (
    rw (number_in-nonce_of i small)
      (ap (λ (es : List Event). on_event (pos i) ∷ es) (read_events-Delivers json rest ops later)))

await_ready-Waits :
    (json : Json) (before behind : List Incoming) (r : Bytes) (f : Frame)
    → Waits json before
    → json.frame r ≡ some f
    → is_ready f ≡ true
    → await_ready json (before ++ message r ∷ behind) ≡ ready ∷ read_events json behind
unfolding await_ready awaited
await_ready-Waits json _ behind r f at_once decoded is_it = rw decoded (rw is_it refl)
await_ready-Waits json _ behind r f (another m g {rest} first not_yet later) decoded is_it =
    rw first (rw not_yet (await_ready-Waits json rest behind r f later decoded is_it))

-- On a gateway that greets the shard, sends messages that are no READY, then READY, and then the
-- events of operations below 2^63, with the nonces that dispatch has given them, among others that
-- are no MESSAGE_CREATE, all in JSON that can be decoded: where IDENTIFY can be written, it is
-- written once, connectGateway returns without an error, and onEvent is called with the numbers of
-- those operations, each once for each event, in the order of the events.
pub connect_gateway-Delivers :
    (json : Json) (m r : Bytes) (interval : ℤ) (f : Frame) (before behind : List Incoming)
    (ops : List ℕ)
    → json.hello m ≡ some interval
    → Waits json before
    → json.frame r ≡ some f
    → is_ready f ≡ true
    → Delivers json behind ops
    → connect_gateway json none (message m ∷ before ++ message r ∷ behind)
      ≡ identify ∷ ready ∷ map (λ i. on_event (pos i)) ops
unfolding connect_gateway
connect_gateway-Delivers json m r interval f before behind ops hello waits decoded is_it delivers =
    rw hello (
      ap (λ (es : List Event). identify ∷ es)
        (await_ready-Waits json before behind r f waits decoded is_it
          ∙ ap (λ (es : List Event). ready ∷ es) (read_events-Delivers json behind ops delivers)))
