-- ===== src/Tamper/Preview.antt =====
-- preview, proxy/internals/tamper/logging.go: at most payloadPreviewLimit bytes, cut between runes.
pub mod Runes
use hallmaster_proxy.Base.{
  ℕ, zero, suc, ◌+◌, ◌-◌, ◌≤◌, ◌<◌, Bool, true, false, not, ◌&&◌, List, [], ◌∷◌, ◌++◌, ◌≡◌, refl,
  arith, ap, ◌∙◌, sym, ltb, leb, if◌then◌else◌, length, take, drop, length-append, take_prefix,
  append_assoc, take-append-drop, Bool-cases, inl, inr, length-take, min, ◌⊎◌,
}
use hallmaster_proxy.Text.{Bytes, codes}

abbrev pub payload_preview_limit : ℕ
payload_preview_limit = 8192

-- utf8.RuneStart: not a continuation byte
abbrev pub rune_start : ℕ → Bool
rune_start b = not (leb 128 b && ltb b 192)

-- s[i], for an index in range
abbrev pub byte_at : Bytes → ℕ → ℕ
byte_at [] i = 0
byte_at (c ∷ s) zero = c
byte_at (c ∷ s) (suc i) = byte_at s i

-- for end > 0 && !utf8.RuneStart(s[end]) { end-- }
pub back_off : Bytes → ℕ → ℕ
back_off s zero = zero
back_off s (suc end) =
    let rest = back_off s end in if rune_start (byte_at s (suc end)) then suc end else rest

abbrev pub marker : Bytes
marker = codes "... [truncated]"

unfoldable pub preview_within : ℕ → Bytes → Bytes
unfolding back_off
preview_within limit s = if leb (length s) limit then s else take (back_off s limit) s ++ marker

unfoldable pub preview : Bytes → Bytes
unfolding preview_within
preview = preview_within payload_preview_limit
