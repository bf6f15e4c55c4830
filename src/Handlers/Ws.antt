-- ===== src/Handlers/Ws.antt =====
-- InspectWS, proxy/internals/handlers/ws.go: two pumps over a WebSocket connection that share a
-- tamperer: one round of each loop. Ws.Gateway runs the loops concurrently, with the decoder. Reading,
-- unmasking and writing frames is done by github.com/gobwas/ws.
pub mod Relay
pub mod Closing
pub mod Gateway
use hallmaster_proxy.Base.{
  ℕ, Bool, true, false, ◌&&◌, ◌||◌, List, [], ◌∷◌, ◌++◌, Option, none, some, Result, ok, err, ◌==◌,
  if◌then◌else◌,
}
use hallmaster_proxy.Text.{Bytes}
use hallmaster_proxy.Tamper.{Tamperer, TamperError}

abbrev pub op_binary : ℕ
op_binary = 2

abbrev pub op_close : ℕ
op_close = 8

-- ws.Frame
pub record Frame : Type 0 where
  pub fin : Bool
  pub op_code : ℕ
  pub masked : Bool
  pub mask : Bytes
  pub payload : Bytes

-- One round of a loop: what ws.ReadFrame returns, and the error of the write, nil being `none`.
pub data Incoming : Type 0 where
  ended : Incoming
  frame : Frame → Option Bytes → Incoming

-- wsutil.WriteClientMessage and WriteServerMessage write one final frame.
pub data Event : Type 0 where
  to_discord : ℕ → Bytes → Event
  to_bot : ℕ → Bytes → Event
  close_discord : Event
  close_bot : Event

-- The collaborators: ws.Cipher on a payload and a mask, and what a call of the decoder's Decode that
-- returns comes to. Ws.Gateway has the calls that do not.
pub record Link (S D : Type 0) : Type 0 where
  pub tamperer : Tamperer S
  pub cipher : Bytes → Bytes → Bytes
  pub decode : D → Bytes → D × Result Bytes (Option Bytes)

-- The decoder is `none` on an uncompressed connection; a pump that has returned is done.
pub record Pumps (S D : Type 0) : Type 0 where
  pub tamper_state : S
  pub decoder : Option D
  pub bot_done : Bool
  pub discord_done : Bool

pub data Move : Type 0 where
  from_bot : Incoming → Move
  from_discord : Incoming → Move

abbrev pub is_some {ℓ} : {A : Type ℓ} → Option A → Bool
is_some none = false
is_some (some a) = true

-- The loop returns after a failed write and after a close frame.
abbrev pub last_round : Frame → Option Bytes → Bool
last_round f write_error = is_some write_error || f.op_code == op_close

abbrev or_payload : Bytes → Result TamperError Bytes → Bytes
or_payload payload (ok b) = b
or_payload payload (err e) = payload

-- What the tamperer sees of a compressed frame.
abbrev tamper_view : Bytes → Result Bytes (Option Bytes) → Bytes
tamper_view payload (ok (some inspected)) = inspected
tamper_view payload (ok none) = payload
tamper_view payload (err e) = payload

module _ {S D : Type 0} where
  -- The frame's payload as the bot meant it.
  pub unmasked : Link S D → Frame → Bytes
  unmasked link f = if f.masked then link.cipher f.payload f.mask else f.payload

  bot_return : Bool → Pumps S D → Pumps S D × List Event
  bot_return true st = (record st { bot_done = true }, close_discord ∷ [])
  bot_return false st = (st, [])

  discord_return : Bool → Pumps S D → Pumps S D × List Event
  discord_return true st = (record st { discord_done = true }, close_bot ∷ [])
  discord_return false st = (st, [])

  abbrev after_event : Event → Pumps S D × List Event → Pumps S D × List Event
  after_event e (st, events) = (st, e ∷ events)

  -- bot -> Discord
  pub bot_round : Link S D → Pumps S D → Incoming → Pumps S D × List Event
  unfolding unmasked bot_return
  bot_round link st ended = bot_return true st
  bot_round link st (frame f write_error) =
      let payload = unmasked link f in
      let (t, tampered) = link.tamperer.ws_outgoing payload st.tamper_state in
      after_event (to_discord f.op_code (or_payload payload tampered))
        (bot_return (last_round f write_error) (record st { tamper_state = t }))

  -- The payload for the bot, after the tamperer and the decoder have seen the frame, in a round in
  -- which Decode returns.
  pub inspect : Link S D → Pumps S D → Frame → Option D → Pumps S D × Bytes
  inspect link st f none =
      let (t, tampered) = link.tamperer.ws_incoming f.payload st.tamper_state in
      (record st { tamper_state = t }, or_payload f.payload tampered)
  inspect link st f (some decoder) =
      if f.op_code == op_binary
      then (let (decoder', decoded) = link.decode decoder f.payload in
          let (t, tampered) =
            link.tamperer.ws_incoming (tamper_view f.payload decoded) st.tamper_state in
          (record st { tamper_state = t; decoder = some decoder' }, f.payload))
      else (let (t, tampered) = link.tamperer.ws_incoming f.payload st.tamper_state in
          (record st { tamper_state = t }, or_payload f.payload tampered))

  -- Discord -> bot
  pub discord_round : Link S D → Pumps S D → Incoming → Pumps S D × List Event
  unfolding inspect discord_return
  discord_round link st ended = discord_return true st
  discord_round link st (frame f write_error) =
      let (st', outbound) = inspect link st f st.decoder in
      after_event (to_bot f.op_code outbound) (discord_return (last_round f write_error) st')

  -- A pump that has returned makes no more rounds.
  pub move : Link S D → Pumps S D → Move → Pumps S D × List Event
  unfolding bot_round discord_round
  move link st (from_bot i) = if st.bot_done then (st, []) else bot_round link st i
  move link st (from_discord i) = if st.discord_done then (st, []) else discord_round link st i

  -- How InspectWS starts.
  abbrev pub start : S → Option D → Pumps S D
  start t decoder = record {
    tamper_state = t;
    decoder = decoder;
    bot_done = false;
    discord_done = false;
  }
