-- ===== src/Handlers/Ws/Gateway/Relays.antt =====
-- What each side receives, whatever the interleaving of the two pumps.
use hallmaster_proxy.Base.{
  Bool, true, false, List, [], ◌∷◌, ◌≡◌, refl, sym, ◌∙◌, arith, if◌then◌else◌, inl, inr, Bool-cases,
}
use hallmaster_proxy.Text.{Bytes}
use hallmaster_proxy.Tamper.{Tamperer}
use hallmaster_proxy.Tamper.PassThrough.{IsPassThrough}
use hallmaster_proxy.Discord.{Inflater, Decoder}
use hallmaster_proxy.Handlers.Ws.{Incoming, Pumps, Move, from_bot, from_discord, unmasked, move}
use hallmaster_proxy.Handlers.Ws.Relay.{
  bot_receives, discord_receives, discord_side, bot_side, relay, bot_receives-append,
  discord_receives-append, move_from_bot, move_from_discord, discord_move, bot_move, kept,
}
use hallmaster_proxy.Handlers.Ws.Gateway.{
  Gateway, Round, bot_reads, discord_reads, move_of, link, waits, moved, discord_read, round,
  gateway,
}

abbrev pub moves_of : List Round → List Move
moves_of [] = []
moves_of (r ∷ rounds) = move_of r ∷ moves_of rounds

module _ {S I : Type 0} (tamperer : Tamperer S) (cipher : Bytes → Bytes → Bytes)
    (z : Inflater I) where
  stuck-round :
      (g : Gateway S I) (r : Round) → g.stuck ≡ true → (round tamperer cipher z g r).0.stuck ≡ true
  unfolding round
  stuck-round g (bot_reads i) h = h
  stuck-round g (discord_reads i reported) h = ground arith

  stuck-gateway :
      (g : Gateway S I) (rounds : List Round)
      → g.stuck ≡ true
      → (gateway tamperer cipher z g rounds).0.stuck ≡ true
  unfolding gateway
  stuck-gateway g [] h = h
  stuck-gateway g (r ∷ rounds) h =
      stuck-gateway (round tamperer cipher z g r).0 rounds (stuck-round g r h)

  pub not_stuck :
      (g : Gateway S I) (rounds : List Round)
      → (gateway tamperer cipher z g rounds).0.stuck ≡ false
      → g.stuck ≡ false
  not_stuck g rounds h = elim (Bool-cases g.stuck) [
    | inl stuck ↦ absurd (cc (sym (stuck-gateway g rounds stuck) ∙ h))
    | inr free ↦ free
  ]

  move_done :
      (st : Pumps S (Decoder I)) (i : Incoming) (reported : Bool)
      → st.discord_done ≡ true
      → move (link tamperer cipher z reported) st (from_discord i) ≡ (st, [])
  unfolding move
  move_done st i reported h = rw h refl

  -- A round of Discord's pump that does not block is a round of InspectWS's loop.
  pub round-moved :
      (g : Gateway S I) (i : Incoming) (reported : Bool)
      → g.stuck ≡ false
      → (round tamperer cipher z g (discord_reads i reported)).0.stuck ≡ false
      → round tamperer cipher z g (discord_reads i reported)
        ≡ moved tamperer cipher z g
            (move (link tamperer cipher z reported) g.pumps (from_discord i))
  unfolding round discord_read
  round-moved g i reported free later = elim (Bool-cases g.pumps.discord_done) [
    | inl over ↦ rw (free, move_done g.pumps i reported over, over) refl
    | inr going ↦ elim (Bool-cases (waits tamperer cipher z g.pumps.decoder i reported)) [
      | inl waiting ↦ absurd (ground arith)
      | inr on ↦ rw (free, going, on) refl
    ]
  ]

  -- Discord's pump writes nothing to Discord.
  round_from_discord :
      (g : Gateway S I) (i : Incoming) (reported : Bool)
      → (discord_receives (round tamperer cipher z g (discord_reads i reported)).1 ≡ [])
        × ((round tamperer cipher z g (discord_reads i reported)).0.pumps.bot_done
            ≡ g.pumps.bot_done)
  unfolding round discord_read
  round_from_discord g i reported =
      ground (arith, move_from_discord (link tamperer cipher z reported) g.pumps i)

  module _ (pass : IsPassThrough tamperer) where
    -- With a tamperer that rewrites nothing, if no call of the decoder has blocked when the rounds
    -- are over, the bot has received Discord's frames in order, each with its opcode and its payload
    -- as it was on the wire, up to the first close frame or failed write, however the two pumps
    -- interleave; nothing, if its pump had returned before. Without compression there is no decoder,
    -- and no call of it.
    pub bot_receives-relay :
        (g : Gateway S I) (rounds : List Round)
        → (gateway tamperer cipher z g rounds).0.stuck ≡ false
        → bot_receives (gateway tamperer cipher z g rounds).1 ≡ (
            if g.pumps.discord_done
            then []
            else relay (λ f. f.payload) (discord_side (moves_of rounds)))
    unfolding gateway
    bot_receives-relay g [] h = unfold relay in ground arith
    bot_receives-relay g (bot_reads i ∷ rounds) h =
        let (pumps', events) = move (link tamperer cipher z true) g.pumps (from_bot i) in
        let other = move_from_bot (link tamperer cipher z true) g.pumps i in
        let g' = record g { pumps = pumps' } in
        unfold round in
        rw
          (
            bot_receives-append events (gateway tamperer cipher z g' rounds).1,
            other.0,
            bot_receives-relay g' rounds h,
            other.1,
          )
          refl
    bot_receives-relay g (discord_reads i reported ∷ rounds) h =
        let (pumps', events) = move (link tamperer cipher z reported) g.pumps (from_discord i) in
        let g' = record g { pumps = pumps' } in
        let free = not_stuck g (discord_reads i reported ∷ rounds) h in
        let next_free =
          not_stuck (round tamperer cipher z g (discord_reads i reported)).0 rounds h in
        let e = round-moved g i reported free next_free in
        let later = bot_receives-relay g' rounds (rw e at h) in
        rw e (
          rw (bot_receives-append events (gateway tamperer cipher z g' rounds).1, later)
            (discord_move (link tamperer cipher z reported) g.pumps i
              (discord_side (moves_of rounds))
              (kept (link tamperer cipher z reported) pass g.pumps i)))

    -- With a tamperer that rewrites nothing, Discord receives the bot's frames in order, with their
    -- opcodes and unmasked payloads, up to the first close frame or failed write, however the two
    -- pumps interleave, and whether or not a call of the decoder blocks; nothing, if its pump had
    -- returned before.
    pub discord_receives-relay :
        (g : Gateway S I) (rounds : List Round)
        → discord_receives (gateway tamperer cipher z g rounds).1 ≡ (
            if g.pumps.bot_done
            then []
            else relay (unmasked (link tamperer cipher z true)) (bot_side (moves_of rounds)))
    unfolding gateway
    discord_receives-relay g [] = unfold relay in ground arith
    discord_receives-relay g (bot_reads i ∷ rounds) =
        let (pumps', events) = move (link tamperer cipher z true) g.pumps (from_bot i) in
        let g' = record g { pumps = pumps' } in
        unfold round in
        rw
          (
            discord_receives-append events (gateway tamperer cipher z g' rounds).1,
            discord_receives-relay g' rounds,
          )
          (bot_move (link tamperer cipher z true) pass.same_outgoing g.pumps i
            (bot_side (moves_of rounds)))
    discord_receives-relay g (discord_reads i reported ∷ rounds) =
        let (g', events) = round tamperer cipher z g (discord_reads i reported) in
        let (none_sent, same) = round_from_discord g i reported in
        rw
          (
            discord_receives-append events (gateway tamperer cipher z g' rounds).1,
            none_sent,
            discord_receives-relay g' rounds,
            same,
          )
          refl
