-- ===== src/Tests/DiscordTests.antt =====
-- A decoder over an inflater that drops the flush marker.
use hallmaster_proxy.Base.{ℕ, true, false, [], ◌∷◌, none, some, ◌≡◌, refl}
use hallmaster_proxy.Text.{Bytes, codes, has_suffix}
use hallmaster_proxy.Discord.{
  Inflater, starved, returned, blocked, is_zlib_flush, new_decoder, decode, decode_all,
}
use hallmaster_proxy.Discord.Blocking.{decode_all-blocked, full_blocks, short_returns}
use hallmaster_proxy.Tests.WsTests.{copying, flushed}

abbrev hello : Bytes
hello = flushed "hello"

first_frames :
    (decode_all copying new_decoder ((hello, true) ∷ (codes "half", true) ∷ (hello, true) ∷ [])).1
    ≡ returned (some (codes "hello")) none ∷ blocked ∷ blocked ∷ []
unfolding decode_all decode has_suffix
first_frames = refl

decode_all-blocked_test :
    (decode_all copying
      (record { reader = some 0; locked = false })
      ((codes "half", true) ∷ (hello, true) ∷ [])).1
    ≡ blocked ∷ blocked ∷ []
unfolding is_zlib_flush has_suffix
decode_all-blocked_test =
    decode_all-blocked copying 0 false (codes "half") true ((hello, true) ∷ []) refl

-- An inflater whose last read fills the buffer.
abbrev filling : Inflater ℕ
filling = record copying { inflate = λ i frame. (i, frame, starved false) }

full_blocks_test :
    (decode filling (record { reader = some 0; locked = false }) hello true).1 ≡ blocked
unfolding is_zlib_flush has_suffix
full_blocks_test =
    full_blocks filling (record { reader = some 0; locked = false }) 0 hello true refl refl refl

short_returns_test :
    decode copying (record { reader = some 0; locked = false }) hello true
    ≡ (record { reader = some 0; locked = false }, returned (some (codes "hello")) none)
unfolding is_zlib_flush has_suffix
short_returns_test = short_returns copying 0 hello refl refl
