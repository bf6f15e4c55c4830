-- ===== src/Discord.antt =====
-- ZlibStreamDecoder, proxy/internals/discord/wscompress.go: the decoder of a gateway's zlib stream,
-- fed through an io.Pipe. compress/zlib enters as an inflater, which reads the pipe through a buffer
-- of 4096 bytes.
pub mod Blocking
use hallmaster_proxy.Base.{
  ℕ, Bool, true, false, ◌&&◌, List, [], ◌∷◌, Option, none, some, Result, ok, err, leb, ltb, length,
  if◌then◌else◌,
}
use hallmaster_proxy.Text.{Bytes, has_suffix}

abbrev pub zlib_sync_flush : Bytes
zlib_sync_flush = 0x00 ∷ 0x00 ∷ 0xff ∷ 0xff ∷ []

unfoldable pub is_zlib_flush : Bytes → Bool
unfolding has_suffix
is_zlib_flush frame = has_suffix frame zlib_sync_flush

-- bufio's default size
abbrev pub buffer_size : ℕ
buffer_size = 4096

-- How reading ends for now: for want of input, at io.EOF or io.ErrUnexpectedEOF, or with another
-- error. For want of input there is whether the last read that returned was shorter than the buffer
-- of 8192 bytes; it is not if no read has returned.
pub data Ending : Type 0 where
  starved : Bool → Ending
  ended : Ending
  failed : Bytes → Ending

-- compress/zlib: the reader made from the stream's first bytes, and what Read gives in all for what
-- is written next.
pub record Inflater (I : Type 0) : Type 0 where
  pub new_reader : Bytes → Result Bytes I
  pub inflate : I → Bytes → I × Bytes × Ending

-- `reader` is nil until the stream has begun. A call that blocks keeps the mutex: `locked`.
pub record Decoder (I : Type 0) : Type 0 where
  pub reader : Option I
  pub locked : Bool

-- What a call of Decode comes to; the bytes and the error are returned together.
pub data Outcome : Type 0 where
  returned : Option Bytes → Option Bytes → Outcome
  blocked : Outcome

-- NewZlibStreamDecoder
abbrev pub new_decoder : {I : Type 0} → Decoder I
new_decoder = record { reader = none; locked = false }

module _ {I : Type 0} where
  abbrev pub blocks : Decoder I → Decoder I × Outcome
  blocks d = (record d { locked = true }, blocked)

  -- The last read of drain empties the pipe. Behind a read that is shorter than the buffer drain asks
  -- whether the writer has reported (`reported`). If it has not asked, or the writer has not reported,
  -- it reads again, from a pipe that nobody writes to.
  pub drained : Decoder I → Bool → I × Bytes × Ending → Decoder I × Outcome
  drained d reported (reader, out, failed e) =
      (record d { reader = some reader }, returned (some out) (some e))
  drained d reported (reader, out, ended) =
      (record d { reader = some reader }, returned (some out) none)
  drained d reported (reader, out, starved short) =
      if short && reported
      then (record d { reader = some reader }, returned (some out) none)
      else blocks (record d { reader = some reader })

  -- With a reader: `taken` says whether it has taken the whole frame off the pipe already.
  pub with_reader : Inflater I → Decoder I → Bytes → Bool → Bool → I → Decoder I × Outcome
  unfolding drained is_zlib_flush
  with_reader z d frame reported taken reader =
      if is_zlib_flush frame
      then drained d reported (z.inflate reader frame)
      else if taken
      then (record d { reader = some reader }, returned none none)
      else blocks (record d { reader = some reader })

  pub opened : Inflater I → Decoder I → Bytes → Bool → Result Bytes I → Decoder I × Outcome
  unfolding with_reader
  opened z d frame reported (err e) =
      if leb (length frame) buffer_size then (d, returned none (some e)) else blocks d
  opened z d frame reported (ok reader) =
      with_reader z d frame reported (leb (length frame) buffer_size) reader

  -- The first frame makes the reader, which wants the two bytes of a header.
  pub with_stream : Inflater I → Decoder I → Bytes → Bool → Option I → Decoder I × Outcome
  unfolding opened with_reader
  with_stream z d frame reported (some reader) = with_reader z d frame reported false reader
  with_stream z d frame reported none =
      if ltb (length frame) 2 then blocks d else opened z d frame reported (z.new_reader frame)

  -- Decode
  unfoldable pub decode : Inflater I → Decoder I → Bytes → Bool → Decoder I × Outcome
  unfolding with_stream
  decode z d frame reported =
      if d.locked then (d, blocked) else with_stream z d frame reported d.reader

  -- Frames in turn, each with whether its writer reports in time.
  unfoldable pub decode_all :
      Inflater I → Decoder I → List (Bytes × Bool) → Decoder I × List Outcome
  unfolding decode
  decode_all z d [] = (d, [])
  decode_all z d ((frame, reported) ∷ frames) =
      let (d', outcome) = decode z d frame reported in
      let (last, outcomes) = decode_all z d' frames in (last, outcome ∷ outcomes)
