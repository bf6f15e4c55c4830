-- ===== src/Handlers/Ws/Gateway.antt =====
-- InspectWS of handlers/ws.go, with the decoder of discord/wscompress.go in it on a compressed
-- connection: the pump from Discord calls Decode before it writes, and a call that blocks stops that
-- pump. The pumps run concurrently; a schedule says whose loop makes its next round.
pub mod Stalls
pub mod Relays
pub mod Compressed
pub mod Flowing
use hallmaster_proxy.Base.{
  Bool, true, false, ◌&&◌, List, [], ◌∷◌, ◌++◌, Option, none, some, Result, ok, err, ◌==◌,
  if◌then◌else◌,
}
use hallmaster_proxy.Text.{Bytes}
use hallmaster_proxy.Tamper.{Tamperer}
use hallmaster_proxy.Discord.{Inflater, Decoder, Outcome, returned, blocked, new_decoder, decode}
use hallmaster_proxy.Handlers.Ws.{
  op_binary, Incoming, ended, frame, Event, Link, Pumps, Move, from_bot, from_discord, move, start,
}

-- The pumps, and whether the one from Discord waits in Decode.
pub record Gateway (S I : Type 0) : Type 0 where
  pub pumps : Pumps S (Decoder I)
  pub stuck : Bool

-- A round of a pump; for Discord's, with whether the decoder's writer reports in time.
pub data Round : Type 0 where
  bot_reads : Incoming → Round
  discord_reads : Incoming → Bool → Round

abbrev pub move_of : Round → Move
move_of (bot_reads i) = from_bot i
move_of (discord_reads i reported) = from_discord i

abbrev pub is_blocked : Outcome → Bool
is_blocked blocked = true
is_blocked (returned out e) = false

-- What InspectWS takes from a call that returned.
abbrev pub as_result : Outcome → Result Bytes (Option Bytes)
as_result (returned out none) = ok out
as_result (returned out (some e)) = err e
as_result blocked = ok none

module _ {S I : Type 0} (tamperer : Tamperer S) (cipher : Bytes → Bytes → Bytes)
    (z : Inflater I) where
  abbrev pub link : Bool → Link S (Decoder I)
  link reported = record {
    tamperer = tamperer;
    cipher = cipher;
    decode =
        λ d payload. let (d', outcome) = decode z d payload reported in (d', as_result outcome);
  }

  -- Decode does not come back in this round.
  pub waits : Option (Decoder I) → Incoming → Bool → Bool
  waits none i reported = false
  waits (some d) ended reported = false
  waits (some d) (frame f e) reported =
      if f.op_code == op_binary then is_blocked (decode z d f.payload reported).1 else false

  abbrev pub moved : Gateway S I → Pumps S (Decoder I) × List Event → Gateway S I × List Event
  moved g (pumps, events) = (record g { pumps = pumps }, events)

  pub discord_read : Gateway S I → Incoming → Bool → Bool → Gateway S I × List Event
  discord_read g i reported true = (record g { stuck = true }, [])
  discord_read g i reported false = moved g (move (link reported) g.pumps (from_discord i))

  pub round : Gateway S I → Round → Gateway S I × List Event
  unfolding waits discord_read move
  round g (bot_reads i) = moved g (move (link true) g.pumps (from_bot i))
  round g (discord_reads i reported) =
      if g.stuck
      then (g, [])
      else if g.pumps.discord_done
      then (g, [])
      else discord_read g i reported (waits g.pumps.decoder i reported)

  unfoldable pub gateway : Gateway S I → List Round → Gateway S I × List Event
  unfolding round
  gateway g [] = (g, [])
  gateway g (r ∷ rounds) =
      let (g', events) = round g r in
      let (last, later) = gateway g' rounds in (last, events ++ later)

module _ {S I : Type 0} where
  -- How InspectWS begins; the decoder is new, and there only on a compressed connection.
  unfoldable pub opening : S → Bool → Gateway S I
  opening t compressed = record {
    pumps = start t (if compressed then some new_decoder else none);
    stuck = false;
  }

  -- wg.Wait comes back when both pumps have returned.
  abbrev pub has_returned : Gateway S I → Bool
  has_returned g = g.pumps.bot_done && g.pumps.discord_done
