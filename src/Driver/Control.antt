-- ===== src/Driver/Control.antt =====
-- The driver's requests over HTTP, tests/stress/driver/main.go: doJSON and its four callers. The
-- HTTP client and encoding/json are the environment's; the texts of errors are constructors.
use hallmaster_proxy.Base.{
  ℕ, Bool, true, false, [], ◌∷◌, Option, some, Result, ok, err, leb, ltb, if◌then◌else◌, ℤ, pos,
  negsuc,
}
use hallmaster_proxy.Text.{Bytes}

pub record Reply : Type 0 where
  pub status_code : ℕ
  pub raw : Bytes

pub data ControlError : Type 0 where
  transport : Bytes → ControlError
  bad_status : ℕ → Bytes → ControlError
  decode : Bytes → Bytes → ControlError
  empty_session : ControlError
  unexpected_reply : ControlError
  dispatched_to : ℤ → ControlError
  empty_url : ControlError

unfoldable pub checked : {A : Type 0} → (Bytes → Result Bytes A) → Reply → Result ControlError A
checked unmarshal reply =
    if leb 300 reply.status_code
    then err (bad_status reply.status_code reply.raw)
    else elim (unmarshal reply.raw) [ ok out ↦ ok out | err e ↦ err (decode reply.raw e) ]

-- doJSON, on what c.Do returns
unfoldable pub do_json :
    {A : Type 0} → (Bytes → Result Bytes A) → Result Bytes Reply → Result ControlError A
unfolding checked
do_json unmarshal (err e) = err (transport e)
do_json unmarshal (ok reply) = checked unmarshal reply

-- The replies that are decoded; a pointer that is nil is `none`.
pub record Created : Type 0 where
  pub session_id : Bytes
  pub token : Bytes

pub record Loop : Type 0 where
  pub success : Option Bool
  pub enabled : Option Bool

pub record Json : Type 0 where
  pub created : Bytes → Result Bytes Created
  pub loop : Bytes → Result Bytes Loop
  pub dispatched : Bytes → Result Bytes ℤ
  pub url : Bytes → Result Bytes Bytes

abbrev pub is_empty : Bytes → Bool
is_empty [] = true
is_empty (b ∷ bs) = false

abbrev pub named : Created → Result ControlError Created
named out =
    if is_empty out.session_id
    then err empty_session
    else if is_empty out.token
    then err empty_session
    else ok out

abbrev off : Option Bool → Option Bool → Result ControlError Unit
off (some success) (some false) = ok tt
off success enabled = err unexpected_reply

abbrev to_two : ℤ → Result ControlError Unit
to_two (pos n) = if ltb n 2 then err (dispatched_to (pos n)) else ok tt
to_two (negsuc n) = err (dispatched_to (negsuc n))

abbrev not_empty : Bytes → Result ControlError Bytes
not_empty [] = err empty_url
not_empty (b ∷ bs) = ok (b ∷ bs)

abbrev pub and_then :
    {A B : Type 0} → Result ControlError A → (A → Result ControlError B) → Result ControlError B
and_then (ok a) f = f a
and_then (err e) f = err e

unfoldable pub create_session : Json → Result Bytes Reply → Result ControlError Created
unfolding do_json
create_session json answer = and_then (do_json json.created answer) named

unfoldable pub disable_loop_protection : Json → Result Bytes Reply → Result ControlError Unit
unfolding do_json
disable_loop_protection json answer =
    and_then (do_json json.loop answer) (λ out. off out.success out.enabled)

unfoldable pub dispatch : Json → Result Bytes Reply → Result ControlError Unit
unfolding do_json
dispatch json answer = and_then (do_json json.dispatched answer) to_two

unfoldable pub gateway_url : Json → Result Bytes Reply → Result ControlError Bytes
unfolding do_json
gateway_url json answer = and_then (do_json json.url answer) not_empty
