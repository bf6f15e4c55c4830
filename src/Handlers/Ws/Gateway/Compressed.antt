-- ===== src/Handlers/Ws/Gateway/Compressed.antt =====
-- Compressed connections: the tamperer observes, and the decoder sees every binary frame in order.
use hallmaster_proxy.Base.{true, false, List, [], ◌∷◌, ◌≡◌, refl, arith, ap, ◌∙◌, if◌then◌else◌}
use hallmaster_proxy.Text.{Bytes}
use hallmaster_proxy.Tamper.{Tamperer}
use hallmaster_proxy.Discord.{Inflater}
use hallmaster_proxy.Handlers.Ws.Gateway.{
  Gateway, Round, bot_reads, discord_reads, link, round, gateway,
}
use hallmaster_proxy.Handlers.Ws.Gateway.Relays.{moves_of, not_stuck, round-moved}
use hallmaster_proxy.Handlers.Ws.{
  op_binary, Incoming, ended, frame, Link, Pumps, from_bot, from_discord, is_some, bot_round,
  discord_round, inspect, move,
}
use hallmaster_proxy.Handlers.Ws.Relay.{
  bot_receives, discord_side, relay, bot_receives-append, move_from_bot, discord_move, IsKept,
}

abbrev pub AllBinary : List Incoming → Type 0
AllBinary [] = Unit
AllBinary (ended ∷ rest) = AllBinary rest
AllBinary (frame f e ∷ rest) = (f.op_code ≡ op_binary) × AllBinary rest

module _ {S D : Type 0} (link : Link S D) where
  pub bot-decoder :
      (st : Pumps S D) (i : Incoming) → (move link st (from_bot i)).0.decoder ≡ st.decoder
  unfolding move bot_round
  bot-decoder st ended = ground arith
  bot-decoder st (frame f e) = ground arith

  discord-decoder :
      (st : Pumps S D) (i : Incoming)
      → is_some st.decoder ≡ true
      → is_some (move link st (from_discord i)).0.decoder ≡ true
  unfolding move discord_round inspect
  discord-decoder st ended h = ground arith
  discord-decoder st (frame f e) h = ground arith

  binary-IsKept :
      (st : Pumps S D) (i : Incoming) (rest : List Incoming)
      → is_some st.decoder ≡ true
      → AllBinary (i ∷ rest)
      → IsKept link st i
  unfolding inspect
  binary-IsKept st ended rest h b = tt
  binary-IsKept st (frame f e) rest h b = ground arith

  AllBinary-tail : (i : Incoming) (rest : List Incoming) → AllBinary (i ∷ rest) → AllBinary rest
  AllBinary-tail ended rest b = b
  AllBinary-tail (frame f e) rest b = b.1

module _ {S I : Type 0} (tamperer : Tamperer S) (cipher : Bytes → Bytes → Bytes)
    (z : Inflater I) where
  -- On a compressed connection whose frames are binary, if no call of the decoder has blocked when
  -- the rounds are over, the bot has received Discord's frames in order with the payloads that were
  -- on the wire, up to the first close frame or failed write, whatever the tamperer and the
  -- decoder return; nothing, if Discord's pump had returned before.
  pub bot_receives_compressed :
      (g : Gateway S I) (rounds : List Round)
      → is_some g.pumps.decoder ≡ true
      → AllBinary (discord_side (moves_of rounds))
      → (gateway tamperer cipher z g rounds).0.stuck ≡ false
      → bot_receives (gateway tamperer cipher z g rounds).1 ≡ (
          if g.pumps.discord_done
          then []
          else relay (λ f. f.payload) (discord_side (moves_of rounds)))
  unfolding gateway
  bot_receives_compressed g [] has b h = unfold relay in ground arith
  bot_receives_compressed g (bot_reads i ∷ rounds) has b h =
      let (pumps', events) = move (link tamperer cipher z true) g.pumps (from_bot i) in
      let other = move_from_bot (link tamperer cipher z true) g.pumps i in
      let g' = record g { pumps = pumps' } in
      let has' = ap is_some (bot-decoder (link tamperer cipher z true) g.pumps i) ∙ has in
      unfold round in
      rw
        (
          bot_receives-append events (gateway tamperer cipher z g' rounds).1,
          other.0,
          bot_receives_compressed g' rounds has' b h,
          other.1,
        )
        refl
  bot_receives_compressed g (discord_reads i reported ∷ rounds) has b h =
      let (pumps', events) = move (link tamperer cipher z reported) g.pumps (from_discord i) in
      let g' = record g { pumps = pumps' } in
      let rest = discord_side (moves_of rounds) in
      let free = not_stuck tamperer cipher z g (discord_reads i reported ∷ rounds) h in
      let next_free =
        not_stuck tamperer cipher z (round tamperer cipher z g (discord_reads i reported)).0 rounds
          h in
      let e = round-moved tamperer cipher z g i reported free next_free in
      let has' = discord-decoder (link tamperer cipher z reported) g.pumps i has in
      let b' = AllBinary-tail (link tamperer cipher z reported) i rest b in
      let later = bot_receives_compressed g' rounds has' b' (rw e at h) in
      rw e (
        rw (bot_receives-append events (gateway tamperer cipher z g' rounds).1, later)
          (discord_move (link tamperer cipher z reported) g.pumps i rest
            (binary-IsKept (link tamperer cipher z reported) g.pumps i rest has b)))
