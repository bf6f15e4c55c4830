-- ===== src/Handlers/Https/Exchange.antt =====
-- The part of HttpsHandler behind `shouldIntercept`: one request and its response.
use hallmaster_proxy.Base.{
  ℕ, Bool, ◌&&◌, [], ◌∷◌, Option, none, some, Result, ok, err, ◌==◌, if◌then◌else◌,
}
use hallmaster_proxy.Text.{Bytes, codes, Unicode, contains, to_lower, equal_fold}
use hallmaster_proxy.Http.{Request, Response, ReadError}
use hallmaster_proxy.Http.Fields.{get}
use hallmaster_proxy.Httpio.{DecodeError, decode_body, encode}
use hallmaster_proxy.Tamper.{Tampered, TamperError}
use hallmaster_proxy.Handlers.Https.State.{
  Deps, Session, Answers, Ran, next, stop, emit, forward, respond, close_body, inspect,
}

-- isWebsocketUpgrade
unfoldable pub is_websocket_upgrade : Unicode → Request → Bool
unfolding contains to_lower equal_fold
is_websocket_upgrade u req =
    contains (to_lower u (get req.header "Connection")) (codes "upgrade")
    && equal_fold u (get req.header "Upgrade") (codes "websocket")

unfoldable pub is_compressed : Request → Bool
unfolding contains
is_compressed req = contains req.raw_query (codes "compress=zlib-stream")

abbrev result_or : {A : Type 0} → A → Result TamperError A → A
result_or original (ok a) = a
result_or original (err e) = original

-- On an error the original goes on, as the call has left it.
unfoldable pub settle : {A : Type 0} → Tampered A → A
settle t = result_or t.argument t.result

unfoldable pub decoded_or_nil : Result DecodeError (Option Bytes) → Option Bytes
decoded_or_nil (ok decoded) = decoded
decoded_or_nil (err e) = none

module _ {S : Type 0} where
  unfoldable pub answer_client : Session S → Answers → Response → Ran S
  answer_client s a resp = (
    respond s.layer resp ∷ close_body ∷ [],
    elim (a.write_response resp) [ none ↦ next s | some e ↦ stop s ],
  )

  unfoldable pub encoded : Session S → Answers → Response × Option ReadError → Ran S
  unfolding answer_client
  encoded s a (resp, none) = answer_client s a resp
  encoded s a (resp, some e) = (close_body ∷ [], stop s)

  -- Decode for the tamperer, tamper, frame, and write to the client.
  unfoldable pub mirror : Deps S → Session S → Request → Answers → Response → Ran S
  unfolding encoded settle decoded_or_nil
  mirror deps s final_request a resp =
      let (resp', decoded) = decode_body deps.unicode deps.codecs resp in
      let (t, tampered) =
        deps.tamperer.response final_request resp' (decoded_or_nil decoded) s.tamper_state in
      encoded (record s { tamper_state = t }) a (encode deps.unicode (settle tampered))

  -- The upgrade is mirrored, then InspectWS takes the session over.
  unfoldable pub upgrade_websocket : Session S → Request → Answers → Response → ℕ → Ran S
  unfolding is_compressed
  upgrade_websocket s final_request a resp conn = (
    respond s.layer resp ∷ close_body ∷ elim (a.write_response resp) [
      | none ↦ inspect conn s.layer (is_compressed final_request) ∷ []
      | some e ↦ []
    ],
    stop s,
  )

  unfoldable pub answered :
      Deps S → Session S → Request → Answers → ℕ → Result Bytes Response → Ran S
  unfolding mirror upgrade_websocket is_websocket_upgrade
  answered deps s final_request a conn (err e) = ([], stop s)
  answered deps s final_request a conn (ok read) =
      let resp = record read { request = some final_request } in
      if is_websocket_upgrade deps.unicode final_request && resp.status_code == 101
      then upgrade_websocket s final_request a resp conn
      else mirror deps s final_request a resp

  unfoldable pub written : Deps S → Session S → Request → Answers → ℕ → Option Bytes → Ran S
  unfolding answered
  written deps s final_request a conn (some e) = ([], stop s)
  written deps s final_request a conn none =
      answered deps s final_request a conn (a.read_response final_request)

  unfoldable pub exchange : Deps S → Session S → Request → Answers → ℕ → Ran S
  unfolding written settle
  exchange deps s req a conn =
      let (t, tampered) = deps.tamperer.request req s.tamper_state in
      let final_request = settle tampered in
      emit (forward conn req.host final_request ∷ []) (
        written deps (record s { tamper_state = t }) final_request a conn
          (a.write_request final_request))
