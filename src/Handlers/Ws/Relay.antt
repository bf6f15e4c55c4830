-- ===== src/Handlers/Ws/Relay.antt =====
-- What each side receives of one round of a pump.
use hallmaster_proxy.Base.{
  ℕ, List, [], ◌∷◌, ◌++◌, Option, none, some, ok, ◌≡◌, refl, arith, ap, if◌then◌else◌,
}
use hallmaster_proxy.Text.{Bytes}
use hallmaster_proxy.Tamper.PassThrough.{IsPassThrough}
use hallmaster_proxy.Handlers.Ws.{
  Frame, Incoming, ended, frame, Event, to_discord, to_bot, Link, Pumps, Move, from_bot,
  from_discord, last_round, unmasked, bot_round, discord_round, inspect, move,
}

-- The messages written to one side, in order.
abbrev pub bot_receives : List Event → List (ℕ × Bytes)
bot_receives [] = []
bot_receives (to_bot op payload ∷ events) = (op, payload) ∷ bot_receives events
bot_receives (_ ∷ events) = bot_receives events

abbrev pub discord_receives : List Event → List (ℕ × Bytes)
discord_receives [] = []
discord_receives (to_discord op payload ∷ events) = (op, payload) ∷ discord_receives events
discord_receives (_ ∷ events) = discord_receives events

-- What one side reads, in order.
abbrev pub discord_side : List Move → List Incoming
discord_side [] = []
discord_side (from_bot i ∷ moves) = discord_side moves
discord_side (from_discord i ∷ moves) = i ∷ discord_side moves

abbrev pub bot_side : List Move → List Incoming
bot_side [] = []
bot_side (from_bot i ∷ moves) = i ∷ bot_side moves
bot_side (from_discord i ∷ moves) = bot_side moves

-- Frames go through with their opcodes and what `see` makes of them, up to the end of the input, a
-- close frame or a failed write.
unfoldable pub relay : (Frame → Bytes) → List Incoming → List (ℕ × Bytes)
relay see [] = []
relay see (ended ∷ rest) = []
relay see (frame f write_error ∷ rest) =
    let later = relay see rest in
    (f.op_code, see f) ∷ (if last_round f write_error then [] else later)

pub bot_receives-append :
    (a b : List Event) → bot_receives (a ++ b) ≡ bot_receives a ++ bot_receives b
bot_receives-append [] b = refl
bot_receives-append (to_bot op payload ∷ a) b =
    ap (λ r. (op, payload) ∷ r) (bot_receives-append a b)
bot_receives-append (_ ∷ a) b = bot_receives-append a b

pub discord_receives-append :
    (a b : List Event) → discord_receives (a ++ b) ≡ discord_receives a ++ discord_receives b
discord_receives-append [] b = refl
discord_receives-append (to_discord op payload ∷ a) b =
    ap (λ r. (op, payload) ∷ r) (discord_receives-append a b)
discord_receives-append (_ ∷ a) b = discord_receives-append a b

-- The other pump writes nothing to the bot, and nothing to Discord.
pub move_from_bot :
    {S D : Type 0} (link : Link S D) (st : Pumps S D) (i : Incoming)
    → (bot_receives (move link st (from_bot i)).1 ≡ [])
      × ((move link st (from_bot i)).0.discord_done ≡ st.discord_done)
unfolding move bot_round
move_from_bot link st ended = ground arith
move_from_bot link st (frame f e) = ground arith

pub move_from_discord :
    {S D : Type 0} (link : Link S D) (st : Pumps S D) (i : Incoming)
    → (discord_receives (move link st (from_discord i)).1 ≡ [])
      × ((move link st (from_discord i)).0.bot_done ≡ st.bot_done)
unfolding move discord_round inspect
move_from_discord link st ended = ground arith
move_from_discord link st (frame f e) = ground arith

module _ {S D : Type 0} (link : Link S D) where
  -- The frame goes on as it was read.
  abbrev pub IsKept : Pumps S D → Incoming → Type 0
  IsKept st ended = Unit
  IsKept st (frame f e) = (inspect link st f st.decoder).1 ≡ f.payload

  inspect_done :
      (st : Pumps S D) (f : Frame) (o : Option D)
      → (inspect link st f o).0.discord_done ≡ st.discord_done
  unfolding inspect
  inspect_done st f none = refl
  inspect_done st f (some d) = ground arith

  pub discord_move :
      (st : Pumps S D) (i : Incoming) (rest : List Incoming)
      → IsKept st i
      → let (st', events) = move link st (from_discord i) in
        bot_receives events ++ (if st'.discord_done then [] else relay (λ f. f.payload) rest)
        ≡ (if st.discord_done then [] else relay (λ f. f.payload) (i ∷ rest))
  unfolding move discord_round relay
  discord_move st ended rest k = ground arith
  discord_move st (frame f e) rest k = ground (arith, inspect_done st f st.decoder)

  pub bot_move :
      (keeps : (payload : Bytes) (s : S) → (link.tamperer.ws_outgoing payload s).1 ≡ ok payload)
      (st : Pumps S D) (i : Incoming) (rest : List Incoming)
      → let (st', events) = move link st (from_bot i) in
        discord_receives events ++ (if st'.bot_done then [] else relay (unmasked link) rest)
        ≡ (if st.bot_done then [] else relay (unmasked link) (i ∷ rest))
  unfolding move bot_round relay
  bot_move keeps st ended rest = ground arith
  bot_move keeps st (frame f e) rest = ground (arith, keeps (unmasked link f) st.tamper_state)

module _ {S D : Type 0} (link : Link S D) (pass : IsPassThrough link.tamperer) where
  inspect_same : (st : Pumps S D) (f : Frame) (o : Option D) → (inspect link st f o).1 ≡ f.payload
  unfolding inspect
  inspect_same st f none = ground (arith, pass.same_incoming f.payload st.tamper_state)
  inspect_same st f (some d) = ground (arith, pass.same_incoming f.payload st.tamper_state)

  pub kept : (st : Pumps S D) (i : Incoming) → IsKept link st i
  kept st ended = tt
  kept st (frame f e) = inspect_same st f st.decoder
