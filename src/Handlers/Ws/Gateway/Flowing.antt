-- ===== src/Handlers/Ws/Gateway/Flowing.antt =====
-- A compressed connection on which every call of the decoder returns.
use hallmaster_proxy.Base.{
  Bool, true, false, List, [], ◌∷◌, Option, some, ◌≡◌, refl, ap, ◌∙◌, arith, inl, inr, Bool-cases,
}
use hallmaster_proxy.Text.{Bytes}
use hallmaster_proxy.Tamper.{Tamperer}
use hallmaster_proxy.Discord.{Inflater, Decoder, starved, is_zlib_flush}
use hallmaster_proxy.Discord.Blocking.{short_returns}
use hallmaster_proxy.Handlers.Ws.{
  op_binary, Frame, Incoming, ended, frame, is_some, inspect, discord_round, move,
}
use hallmaster_proxy.Handlers.Ws.Relay.{bot_receives, discord_side, relay, move_from_bot}
use hallmaster_proxy.Handlers.Ws.Gateway.{
  Gateway, Round, bot_reads, discord_reads, link, waits, discord_read, round, gateway,
}
use hallmaster_proxy.Handlers.Ws.Gateway.Relays.{moves_of}
use hallmaster_proxy.Handlers.Ws.Gateway.Compressed.{
  AllBinary, bot-decoder, bot_receives_compressed,
}

-- The decoder between two calls.
abbrev pub idle_at : {I : Type 0} → I → Decoder I
idle_at reader = record { reader = some reader; locked = false }

module _ {S I : Type 0} (tamperer : Tamperer S) (cipher : Bytes → Bytes → Bytes)
    (z : Inflater I) where
  -- Every frame of Discord's is binary and ends in the flush marker, the last read of what it
  -- inflates to is shorter than the buffer, and the writer reports in time.
  abbrev pub IsFlowing : I → List Round → Type 0
  IsFlowing reader [] = Unit
  IsFlowing reader (bot_reads i ∷ rounds) = IsFlowing reader rounds
  IsFlowing reader (discord_reads ended reported ∷ rounds) = IsFlowing reader rounds
  IsFlowing reader (discord_reads (frame f e) reported ∷ rounds) =
      (f.op_code ≡ op_binary)
      × (is_zlib_flush f.payload ≡ true)
      × ((z.inflate reader f.payload).2 ≡ starved true)
      × (reported ≡ true)
      × IsFlowing (z.inflate reader f.payload).0 rounds

  IsFlowing-AllBinary :
      (reader : I) (rounds : List Round)
      → IsFlowing reader rounds
      → AllBinary (discord_side (moves_of rounds))
  IsFlowing-AllBinary reader [] h = tt
  IsFlowing-AllBinary reader (bot_reads i ∷ rounds) h = IsFlowing-AllBinary reader rounds h
  IsFlowing-AllBinary reader (discord_reads ended reported ∷ rounds) h =
      IsFlowing-AllBinary reader rounds h
  IsFlowing-AllBinary reader (discord_reads (frame f e) reported ∷ rounds) h =
      (h.0, IsFlowing-AllBinary (z.inflate reader f.payload).0 rounds h.4)

  round-over :
      (g : Gateway S I) (r : Round)
      → g.stuck ≡ false
      → g.pumps.discord_done ≡ true
      → ((round tamperer cipher z g r).0.stuck ≡ false)
        × ((round tamperer cipher z g r).0.pumps.discord_done ≡ true)
  unfolding round move
  round-over g (bot_reads i) free over =
      (free, (move_from_bot (link tamperer cipher z true) g.pumps i).1 ∙ over)
  round-over g (discord_reads i reported) free over = ground arith

  gateway-over :
      (g : Gateway S I) (rounds : List Round)
      → g.stuck ≡ false
      → g.pumps.discord_done ≡ true
      → (gateway tamperer cipher z g rounds).0.stuck ≡ false
  unfolding gateway
  gateway-over g [] free over = free
  gateway-over g (r ∷ rounds) free over =
      let (free', over') = round-over g r free over in
      gateway-over (round tamperer cipher z g r).0 rounds free' over'

  flow_round :
      (g : Gateway S I) (reader : I) (f : Frame) (e : Option Bytes)
      → g.stuck ≡ false
      → g.pumps.discord_done ≡ false
      → g.pumps.decoder ≡ some (idle_at reader)
      → f.op_code ≡ op_binary
      → is_zlib_flush f.payload ≡ true
      → (z.inflate reader f.payload).2 ≡ starved true
      → let g' = (round tamperer cipher z g (discord_reads (frame f e) true)).0 in
        (g'.stuck ≡ false) × (g'.pumps.decoder ≡ some (idle_at (z.inflate reader f.payload).0))
  unfolding round waits discord_read move discord_round inspect
  flow_round g reader f e free going idle binary flush short =
      let returns = short_returns z reader f.payload flush short in
      rw (free, going, idle, binary, returns) (ground arith)

  still_idle :
      (g : Gateway S I) (i : Incoming)
      → let g' = (round tamperer cipher z g (bot_reads i)).0 in
        (g'.stuck ≡ g.stuck) × (g'.pumps.decoder ≡ g.pumps.decoder)
  unfolding round
  still_idle g i = (refl, bot-decoder (link tamperer cipher z true) g.pumps i)

  still_idle_at_end :
      (g : Gateway S I) (reported : Bool)
      → let g' = (round tamperer cipher z g (discord_reads ended reported)).0 in
        (g'.stuck ≡ g.stuck) × (g'.pumps.decoder ≡ g.pumps.decoder)
  unfolding round waits discord_read move discord_round
  still_idle_at_end g reported = ground arith

  flows :
      (g : Gateway S I) (reader : I) (rounds : List Round)
      → g.stuck ≡ false
      → g.pumps.decoder ≡ some (idle_at reader)
      → IsFlowing reader rounds
      → (gateway tamperer cipher z g rounds).0.stuck ≡ false
  unfolding gateway
  flows g reader [] free idle h = free
  flows g reader (bot_reads i ∷ rounds) free idle h =
      let (free', idle') = still_idle g i in
      flows (round tamperer cipher z g (bot_reads i)).0 reader rounds (free' ∙ free) (idle' ∙ idle)
        h
  flows g reader (discord_reads ended reported ∷ rounds) free idle h =
      let (free', idle') = still_idle_at_end g reported in
      flows (round tamperer cipher z g (discord_reads ended reported)).0 reader rounds
        (free' ∙ free) (idle' ∙ idle) h
  flows g reader (discord_reads (frame f e) reported ∷ rounds) free idle h =
      elim (Bool-cases g.pumps.discord_done) [
        | inl over ↦ gateway-over g (discord_reads (frame f e) reported ∷ rounds) free over
        | inr going ↦
            let (free', idle') = flow_round g reader f e free going idle h.0 h.1 h.2 in
            rw h.3 (
              flows (round tamperer cipher z g (discord_reads (frame f e) true)).0
                (z.inflate reader f.payload).0 rounds free' idle' h.4)
      ]

  -- On a compressed connection whose stream has begun, with a decoder that no call holds, the bot
  -- receives every frame of Discord's with its payload as it was on the wire, in order, up to the
  -- first close frame or failed write, whatever the tamperer does and however the two pumps
  -- interleave, if each of Discord's frames is binary and ends in the flush marker, the last read of
  -- what it inflates to is shorter than drain's buffer, and the decoder's writer reports in time; no
  -- call of the decoder blocks.
  pub gateway_flows :
      (g : Gateway S I) (reader : I) (rounds : List Round)
      → g.stuck ≡ false
      → g.pumps.discord_done ≡ false
      → g.pumps.decoder ≡ some (idle_at reader)
      → IsFlowing reader rounds
      → ((gateway tamperer cipher z g rounds).0.stuck ≡ false)
        × (bot_receives (gateway tamperer cipher z g rounds).1
            ≡ relay (λ f. f.payload) (discord_side (moves_of rounds)))
  gateway_flows g reader rounds free going idle h =
      let on = flows g reader rounds free idle h in
      (
        on,
        bot_receives_compressed tamperer cipher z g rounds (ap is_some idle)
              (IsFlowing-AllBinary reader rounds h) on
            ∙ rw going refl,
      )
