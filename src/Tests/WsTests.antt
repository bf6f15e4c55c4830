-- ===== src/Tests/WsTests.antt =====
-- WebSocket connections.
use Prim.Native.String.{String}
use hallmaster_proxy.Base.{
  ℕ, ◌-◌, true, false, List, [], ◌∷◌, ◌++◌, none, ok, ◌≡◌, refl, length, take,
}
use hallmaster_proxy.Text.{Bytes, codes, has_suffix}
use hallmaster_proxy.Tamper.{Tamperer}
use hallmaster_proxy.Tamper.Logging.{Log, logging}
use hallmaster_proxy.Tamper.PassThrough.{logging-IsPassThrough}
use hallmaster_proxy.Discord.{Inflater, starved, zlib_sync_flush, is_zlib_flush, decode}
use hallmaster_proxy.Handlers.Ws.{Frame, ended, frame, unmasked}
use hallmaster_proxy.Handlers.Ws.Relay.{
  bot_receives, discord_receives, discord_side, bot_side, relay,
}
use hallmaster_proxy.Handlers.Ws.Gateway.{
  Gateway, Round, bot_reads, discord_reads, link, opening, gateway,
}
use hallmaster_proxy.Handlers.Ws.Gateway.Relays.{
  moves_of, bot_receives-relay, discord_receives-relay,
}
use hallmaster_proxy.Handlers.Ws.Gateway.Compressed.{bot_receives_compressed}

-- An inflater that drops the flush marker.
abbrev pub copying : Inflater ℕ
copying = record {
  new_reader = λ start. ok 0;
  inflate = λ i frame. (i, take (length frame - 4) frame, starved true);
}

abbrev pub flushed : String → Bytes
flushed s = codes s ++ zlib_sync_flush

abbrev binary_frame : Bytes → Frame
binary_frame payload = record {
  fin = true;
  op_code = 2;
  masked = false;
  mask = [];
  payload = payload;
}

-- Discord's frames are whole messages.
abbrev pub rounds : List Round
rounds =
    discord_reads (frame (binary_frame (flushed "hello")) none) true
    ∷ bot_reads (frame (binary_frame (codes "identify")) none)
    ∷ discord_reads (frame (binary_frame (flushed "ready")) none) true
    ∷ bot_reads ended
    ∷ discord_reads ended true
    ∷ []

abbrev pub unmask : Bytes → Bytes → Bytes
unmask payload mask = payload

abbrev begun : Gateway Log ℕ
begun = opening [] true

bot_receives-relay_example :
    bot_receives (gateway (logging false) unmask copying begun rounds).1
    ≡ relay (λ f. f.payload) (discord_side (moves_of rounds))
unfolding opening is_zlib_flush has_suffix gateway decode
bot_receives-relay_example =
    bot_receives-relay (logging false) unmask copying (logging-IsPassThrough false) begun rounds
      refl

discord_receives-relay_example :
    discord_receives (gateway (logging false) unmask copying begun rounds).1
    ≡ relay (unmasked (link (logging false) unmask copying true)) (bot_side (moves_of rounds))
unfolding opening
discord_receives-relay_example =
    discord_receives-relay (logging false) unmask copying (logging-IsPassThrough false) begun rounds

-- A tamperer that tries to rewrite everything.
abbrev rewriting : Tamperer Log
rewriting = record (logging false) { ws_incoming = λ payload log. (log, ok (codes "rewritten")) }

bot_receives_compressed_example :
    bot_receives (gateway rewriting unmask copying begun rounds).1
    ≡ relay (λ f. f.payload) (discord_side (moves_of rounds))
unfolding opening is_zlib_flush has_suffix gateway decode
bot_receives_compressed_example =
    bot_receives_compressed rewriting unmask copying begun rounds refl (refl, (refl, tt)) refl
