-- ===== src/Driver/Rest/Timed.antt =====
-- What latencies.csv says of a REST operation, whatever the others do meanwhile.
use hallmaster_proxy.Base.{
  ℕ, ◌%◌, ◌<◌, Bool-cases, inl, inr, List, [], ◌∷◌, Option, none, some, Result, ok, err, ◌==◌,
  if◌then◌else◌, pos, length, ◌≡◌, refl, ap, ap₂, ◌∙◌, arith,
}
use hallmaster_proxy.Text.{Bytes}
use hallmaster_proxy.Driver.Recorder.{
  Recorder, mode_rest, Via, directly, proxied, load, error_at, new_recorder, fail, latency,
}
use hallmaster_proxy.Driver.Recorder.Arrivals.{
  load-set, load-replicate, error_at-set, error_at-replicate,
}
use hallmaster_proxy.Driver.Report.{Row, zero_blank, overhead, error_text, csv_row}
use hallmaster_proxy.Driver.Rest.{RestEvent, starts, returns, rest_op, rest_happens, rest_happen}

-- One operation's slots.
record Slot : Type 0 where
  sent : ℕ
  direct : ℕ
  proxy : ℕ
  err : Option Bytes

abbrev slot_at : Recorder → ℕ → Slot
slot_at r i = record {
  sent = load r.sent i;
  direct = load r.direct i;
  proxy = load r.proxy i;
  err = error_at r.errs i;
}

-- The index is in range.
abbrev Fits : ℕ → Recorder → Type 0
Fits i r = (i < length r.sent) × (i < length r.direct) × (i < length r.proxy) × (i < length r.errs)

abbrev pub op_of : RestEvent → ℕ
op_of (starts n t) = n
op_of (returns via n answer) = n

abbrev pub events_of : ℕ → List RestEvent → List RestEvent
events_of i [] = []
events_of i (e ∷ events) = let rest = events_of i events in if op_of e == i then e ∷ rest else rest

write : Slot → RestEvent → Slot
write s (starts n t) = record s { sent = t }
write s (returns via n (err e)) = record s { err = some e }
write s (returns directly n (ok d)) = record s { direct = d }
write s (returns proxied n (ok d)) = record s { proxy = d }

write_all : Slot → List RestEvent → Slot
unfolding write
write_all s [] = s
write_all s (e ∷ events) = write_all (write s e) events

slot_at-happens :
    (r : Recorder) (i : ℕ) (e : RestEvent)
    → Fits i r
    → (slot_at (rest_happens r e) i ≡ (if op_of e == i then write (slot_at r i) e else slot_at r i))
      × Fits i (rest_happens r e)
unfolding rest_happens write fail
slot_at-happens r i (starts n t) h = ground (arith, load-set r.sent n t i h.0)
slot_at-happens r i (returns via n (err e)) h = ground (arith, error_at-set r.errs n (some e) i h.3)
slot_at-happens r i (returns directly n (ok d)) h = ground (arith, load-set r.direct n d i h.1)
slot_at-happens r i (returns proxied n (ok d)) h = ground (arith, load-set r.proxy n d i h.2)

slot_at-happen :
    (r : Recorder) (i : ℕ) (events : List RestEvent)
    → Fits i r
    → slot_at (rest_happen r events) i ≡ write_all (slot_at r i) (events_of i events)
unfolding rest_happen write_all
slot_at-happen r i [] h = refl
slot_at-happen r i (e ∷ events) h =
    let (written, fits) = slot_at-happens r i e h in
    slot_at-happen (rest_happens r e) i events fits ∙ elim (Bool-cases (op_of e == i)) [
      | inl own ↦
          rw own (ap (λ (s : Slot). write_all s (events_of i events)) (written ∙ rw own refl))
      | inr other ↦
          rw other (ap (λ (s : Slot). write_all s (events_of i events)) (written ∙ rw other refl))
    ]

blank : Slot
blank = record { sent = 0; direct = 0; proxy = 0; err = none }

slot_at-new_recorder :
    (n i : ℕ) → i < n → (slot_at (new_recorder n) i ≡ blank) × Fits i (new_recorder n)
unfolding new_recorder blank
slot_at-new_recorder n i h = ground (arith, load-replicate n i h, error_at-replicate n i h)

-- The time of a round trip, 0 where it failed; and the error of the later request, or else of the
-- earlier one.
abbrev pub round_trip : Result Bytes ℕ → ℕ
round_trip (err e) = 0
round_trip (ok d) = d

abbrev pub last_error : Result Bytes ℕ → Result Bytes ℕ → Option Bytes
last_error earlier (err e) = some e
last_error (err e) (ok d) = some e
last_error (ok d') (ok d) = none

abbrev pub error_of : ℕ → (Via → Result Bytes ℕ) → Option Bytes
error_of i answers =
    if i % 2 == 1
    then last_error (answers proxied) (answers directly)
    else last_error (answers directly) (answers proxied)

abbrev done : ℕ → ℕ → (Via → Result Bytes ℕ) → Slot
done i t answers = record {
  sent = t;
  direct = round_trip (answers directly);
  proxy = round_trip (answers proxied);
  err = error_of i answers;
}

write_direct_first :
    (i t : ℕ) (a b : Result Bytes ℕ)
    → write_all blank (starts i t ∷ returns directly i a ∷ returns proxied i b ∷ [])
      ≡ record { sent = t; direct = round_trip a; proxy = round_trip b; err = last_error a b }
unfolding write_all write blank
write_direct_first i t a b = ground arith

write_proxied_first :
    (i t : ℕ) (a b : Result Bytes ℕ)
    → write_all blank (starts i t ∷ returns proxied i b ∷ returns directly i a ∷ [])
      ≡ record { sent = t; direct = round_trip a; proxy = round_trip b; err = last_error b a }
unfolding write_all write blank
write_proxied_first i t a b = ground arith

write_all-rest_op :
    (i t : ℕ) (answers : Via → Result Bytes ℕ)
    → write_all blank (rest_op i t answers) ≡ done i t answers
unfolding rest_op
write_all-rest_op i t answers = elim (Bool-cases (i % 2 == 1)) [
  | inl odd ↦ rw odd (write_proxied_first i t (answers directly) (answers proxied))
  | inr even ↦ rw even (write_direct_first i t (answers directly) (answers proxied))
]

abbrev row_of : ℕ → Slot → Row
row_of i s = record {
  op = i;
  direct_ns = zero_blank (pos s.direct);
  proxy_ns = zero_blank (pos s.proxy);
  overhead_ns = overhead (pos s.direct) (pos s.proxy);
  err = error_text s.err s.sent;
}

csv_row-slot : (r : Recorder) (i : ℕ) → csv_row mode_rest r i ≡ row_of i (slot_at r i)
unfolding csv_row latency
csv_row-slot r i = refl

-- However the steps of REST operations interleave, if those of operation i, which is below the
-- target, are a call of op that starts at t, then its row in latencies.csv has the round-trip time
-- of each request that succeeded, and their difference if both did and took time; and the error of
-- its later request, or else of its earlier one. Which path goes first decides nothing else.
pub csv_row-rest_op :
    (n i t : ℕ) (answers : Via → Result Bytes ℕ) (events : List RestEvent)
    → i < n
    → events_of i events ≡ rest_op i t answers
    → let d = pos (round_trip (answers directly)) in
      let p = pos (round_trip (answers proxied)) in
      csv_row mode_rest (rest_happen (new_recorder n) events) i ≡ record {
        op = i;
        direct_ns = zero_blank d;
        proxy_ns = zero_blank p;
        overhead_ns = overhead d p;
        err = error_text (error_of i answers) t;
      }
csv_row-rest_op n i t answers events h own =
    let (new, fits) = slot_at-new_recorder n i h in
    csv_row-slot (rest_happen (new_recorder n) events) i
    ∙ ap (row_of i) (
        slot_at-happen (new_recorder n) i events fits
        ∙ ap₂ write_all new own
        ∙ write_all-rest_op i t answers)
