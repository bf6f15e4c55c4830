-- ===== src/Tests/GatewayTests.antt =====
-- A compressed gateway connection whose second message comes in two frames, and one whose
-- messages are whole.
use hallmaster_proxy.Base.{ℕ, true, false, List, [], ◌∷◌, none, some, ◌≡◌, refl}
use hallmaster_proxy.Text.{Bytes, codes, has_suffix}
use hallmaster_proxy.Tamper.Logging.{Log, logging}
use hallmaster_proxy.Discord.{is_zlib_flush}
use hallmaster_proxy.Handlers.Ws.{Frame, ended, frame, start}
use hallmaster_proxy.Handlers.Ws.Relay.{bot_receives, discord_side, relay}
use hallmaster_proxy.Handlers.Ws.Closing.{closes_bot}
use hallmaster_proxy.Handlers.Ws.Gateway.{Gateway, Round, bot_reads, discord_reads, gateway}
use hallmaster_proxy.Handlers.Ws.Gateway.Stalls.{gateway_stalls}
use hallmaster_proxy.Handlers.Ws.Gateway.Relays.{moves_of}
use hallmaster_proxy.Handlers.Ws.Gateway.Flowing.{gateway_flows}
use hallmaster_proxy.Tests.WsTests.{copying, flushed, unmask}

abbrev binary_frame : Bytes → Frame
binary_frame payload = record {
  fin = true;
  op_code = 2;
  masked = false;
  mask = [];
  payload = payload;
}

abbrev begun : Gateway Log ℕ
begun = record {
  pumps = start [] (some (record { reader = some 0; locked = false }));
  stuck = false;
}

abbrev behind : List Round
behind =
    discord_reads (frame (binary_frame (flushed "hello")) none) true
    ∷ bot_reads (frame (binary_frame (codes "heartbeat")) none)
    ∷ discord_reads ended true
    ∷ []

gateway_stalls_example :
    (bot_receives
        (gateway
          (logging false)
          unmask
          copying
          begun
          (discord_reads (frame (binary_frame (codes "half")) none) true ∷ behind)).1
      ≡ [])
    × (closes_bot
          (gateway
            (logging false)
            unmask
            copying
            begun
            (discord_reads (frame (binary_frame (codes "half")) none) true ∷ behind)).1
        ≡ 0)
unfolding is_zlib_flush has_suffix
gateway_stalls_example =
    gateway_stalls (logging false) unmask copying begun (record { reader = some 0; locked = false })
      0 (binary_frame (codes "half")) none true behind refl refl refl refl

gateway_flows_example :
    ((gateway (logging false) unmask copying begun behind).0.stuck ≡ false)
    × (bot_receives (gateway (logging false) unmask copying begun behind).1
        ≡ relay (λ f. f.payload) (discord_side (moves_of behind)))
unfolding is_zlib_flush has_suffix
gateway_flows_example =
    gateway_flows (logging false) unmask copying begun 0 behind refl refl refl
      (refl, refl, refl, refl, tt)
