-- ===== src/Discord/Blocking.antt =====
-- When Decode returns, and when it does not.
use hallmaster_proxy.Base.{
  Bool, true, false, List, [], ◌∷◌, Option, none, some, ◌≡◌, refl, ap, arith,
}
use hallmaster_proxy.Text.{Bytes}
use hallmaster_proxy.Discord.{
  Decoder, Inflater, starved, Outcome, returned, blocked, is_zlib_flush, drained, with_reader,
  with_stream, decode, decode_all,
}

abbrev pub all_blocked : List (Bytes × Bool) → List Outcome
all_blocked [] = []
all_blocked (f ∷ frames) = blocked ∷ all_blocked frames

module _ {I : Type 0} (z : Inflater I) where
  locked_blocks :
      (reader : Option I) (frames : List (Bytes × Bool))
      → (decode_all z (record { reader = reader; locked = true }) frames).1 ≡ all_blocked frames
  unfolding decode_all decode
  locked_blocks reader [] = refl
  locked_blocks reader ((frame, reported) ∷ frames) =
      ap (λ outcomes. blocked ∷ outcomes) (locked_blocks reader frames)

  pub unflushed_blocks :
      (d : Decoder I) (reader : I) (frame : Bytes) (reported : Bool)
      → d.reader ≡ some reader
      → is_zlib_flush frame ≡ false
      → (decode z d frame reported).1 ≡ blocked
  unfolding decode with_stream with_reader
  unflushed_blocks d reader frame reported begun not_flush = ground arith

  -- Once the stream has begun, a frame without the flush marker at its end (a message in several
  -- frames) blocks its call, and with it every later call, whatever the frames.
  pub decode_all-blocked :
      (reader : I) (locked : Bool) (frame : Bytes) (reported : Bool) (frames : List (Bytes × Bool))
      → is_zlib_flush frame ≡ false
      → (decode_all z
          (record { reader = some reader; locked = locked })
          ((frame, reported) ∷ frames)).1
        ≡ blocked ∷ all_blocked frames
  unfolding decode_all decode with_stream with_reader
  decode_all-blocked reader true frame reported frames not_flush =
      ap (λ outcomes. blocked ∷ outcomes) (locked_blocks (some reader) frames)
  decode_all-blocked reader false frame reported frames not_flush =
      rw not_flush (ap (λ outcomes. blocked ∷ outcomes) (locked_blocks (some reader) frames))

  -- Once the stream has begun, a flushed frame whose last read fills the buffer, or that gives no
  -- bytes at all, blocks its call, even if the writer reports in time.
  pub full_blocks :
      (d : Decoder I) (reader : I) (frame : Bytes) (reported : Bool)
      → d.reader ≡ some reader
      → is_zlib_flush frame ≡ true
      → (z.inflate reader frame).2 ≡ starved false
      → (decode z d frame reported).1 ≡ blocked
  unfolding decode with_stream with_reader drained
  full_blocks d reader frame reported begun flush full = ground arith

  -- If its last read is shorter and the writer reports in time, the call returns what the frame
  -- inflates to.
  pub short_returns :
      (reader : I) (frame : Bytes)
      → is_zlib_flush frame ≡ true
      → (z.inflate reader frame).2 ≡ starved true
      → decode z (record { reader = some reader; locked = false }) frame true ≡ (
        record { reader = some (z.inflate reader frame).0; locked = false },
        returned (some (z.inflate reader frame).1) none,
      )
  unfolding decode with_stream with_reader drained
  short_returns reader frame flush short = ground arith
