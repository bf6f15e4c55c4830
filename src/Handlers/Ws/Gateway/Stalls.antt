-- ===== src/Handlers/Ws/Gateway/Stalls.antt =====
-- A frame that is not the end of a message stalls a compressed connection.
use hallmaster_proxy.Base.{
  Bool, true, false, ◌||◌, List, [], ◌∷◌, ◌++◌, Option, some, ◌≡◌, refl, ap₂, ◌∙◌, arith,
}
use hallmaster_proxy.Text.{Bytes}
use hallmaster_proxy.Tamper.{Tamperer}
use hallmaster_proxy.Discord.{Inflater, Decoder, is_zlib_flush}
use hallmaster_proxy.Discord.Blocking.{unflushed_blocks}
use hallmaster_proxy.Handlers.Ws.{op_binary, Frame, Incoming, ended, frame, bot_round, move}
use hallmaster_proxy.Handlers.Ws.Relay.{bot_receives, bot_receives-append}
use hallmaster_proxy.Handlers.Ws.Closing.{closes_bot, closes-append}
use hallmaster_proxy.Handlers.Ws.Gateway.{
  Gateway, Round, bot_reads, discord_reads, waits, discord_read, round, gateway,
}

module _ {S I : Type 0} (tamperer : Tamperer S) (cipher : Bytes → Bytes → Bytes)
    (z : Inflater I) where
  abbrev silent : Gateway S I → Bool
  silent g = g.stuck || g.pumps.discord_done

  round-silent :
      (g : Gateway S I) (r : Round)
      → silent g ≡ true
      → (silent (round tamperer cipher z g r).0 ≡ true)
        × (bot_receives (round tamperer cipher z g r).1 ≡ [])
        × (closes_bot (round tamperer cipher z g r).1 ≡ 0)
  unfolding round move bot_round
  round-silent g (bot_reads ended) h = ground arith
  round-silent g (bot_reads (frame f e)) h = ground arith
  round-silent g (discord_reads i reported) h = ground arith

  gateway-silent :
      (g : Gateway S I) (rounds : List Round)
      → silent g ≡ true
      → (bot_receives (gateway tamperer cipher z g rounds).1 ≡ [])
        × (closes_bot (gateway tamperer cipher z g rounds).1 ≡ 0)
  unfolding gateway
  gateway-silent g [] h = (refl, refl)
  gateway-silent g (r ∷ rounds) h =
      let (g', events) = round tamperer cipher z g r in
      let (h', none_received, not_closed) = round-silent g r h in
      let (none_later, not_later) = gateway-silent g' rounds h' in
      let later = (gateway tamperer cipher z g' rounds).1 in
      (
        bot_receives-append events later ∙ ap₂ (λ a b. a ++ b) none_received none_later,
        omega (arith, closes-append events later, not_closed, not_later),
      )

  unflushed_waits :
      (g : Gateway S I) (d : Decoder I) (reader : I) (f : Frame) (e : Option Bytes)
      (reported : Bool)
      → g.pumps.decoder ≡ some d
      → d.reader ≡ some reader
      → f.op_code ≡ op_binary
      → is_zlib_flush f.payload ≡ false
      → waits tamperer cipher z g.pumps.decoder (frame f e) reported ≡ true
  unfolding waits
  unflushed_waits g d reader f e reported has_decoder has_reader binary not_flush =
      let block = unflushed_blocks z d reader f.payload reported has_reader not_flush in
      rw (has_decoder, binary, block) refl

  round_stalls :
      (g : Gateway S I) (i : Incoming) (reported : Bool)
      → waits tamperer cipher z g.pumps.decoder i reported ≡ true
      → (silent (round tamperer cipher z g (discord_reads i reported)).0 ≡ true)
        × (bot_receives (round tamperer cipher z g (discord_reads i reported)).1 ≡ [])
        × (closes_bot (round tamperer cipher z g (discord_reads i reported)).1 ≡ 0)
  unfolding round discord_read
  round_stalls g i reported h = ground arith

  -- Once the stream has begun, a binary frame that is not the end of a message stalls the connection
  -- for good: from then on the bot receives nothing, and its connection is not closed either,
  -- whatever the two sides still send.
  pub gateway_stalls :
      (g : Gateway S I) (d : Decoder I) (reader : I) (f : Frame) (e : Option Bytes)
      (reported : Bool) (rounds : List Round)
      → g.pumps.decoder ≡ some d
      → d.reader ≡ some reader
      → f.op_code ≡ op_binary
      → is_zlib_flush f.payload ≡ false
      → (bot_receives (gateway tamperer cipher z g (discord_reads (frame f e) reported ∷ rounds)).1
          ≡ [])
        × (closes_bot (gateway tamperer cipher z g (discord_reads (frame f e) reported ∷ rounds)).1
            ≡ 0)
  unfolding gateway
  gateway_stalls g d reader f e reported rounds has_decoder has_reader binary not_flush =
      let (g', events) = round tamperer cipher z g (discord_reads (frame f e) reported) in
      let wait = unflushed_waits g d reader f e reported has_decoder has_reader binary not_flush in
      let (h', none_received, not_closed) = round_stalls g (frame f e) reported wait in
      let (none_later, not_later) = gateway-silent g' rounds h' in
      let later = (gateway tamperer cipher z g' rounds).1 in
      (
        bot_receives-append events later ∙ ap₂ (λ a b. a ++ b) none_received none_later,
        omega (arith, closes-append events later, not_closed, not_later),
      )
