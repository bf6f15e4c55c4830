-- ===== src/Tamper/Preview/Runes.antt =====
-- The cut of preview falls between two runes.
use native.Mathlib.Nat.{add-suc, zero-add, suc-add}
use native.Mathlib.Decide.{dec_le}
use hallmaster_proxy.Base.{
  ℕ, zero, suc, ◌+◌, ◌-◌, ◌≤◌, ◌<◌, true, false, [], ◌∷◌, ◌++◌, ◌≡◌, refl, arith, ap, ◌∙◌, sym, leb,
  length, take, drop, length-append, take-append-drop, length-take, Bool-cases, inl, inr,
}
use hallmaster_proxy.Text.{Bytes}
use hallmaster_proxy.Tamper.Preview.{
  payload_preview_limit, rune_start, byte_at, back_off, marker, preview_within, preview,
}

abbrev pub AllContinue : Bytes → Type 0
AllContinue [] = Unit
AllContinue (c ∷ s) = (rune_start c ≡ false) × AllContinue s

-- A text of whole runes: a start byte and at most three continuation bytes each.
pub data IsRunes : Bytes → Type 0 where
  nil : {t : Bytes} → t ≡ [] → IsRunes t
  rune :
      {t : Bytes} (c : ℕ) (ks s : Bytes)
      → t ≡ c ∷ (ks ++ s)
      → rune_start c ≡ true
      → AllContinue ks
      → length ks ≤ 3
      → IsRunes s
      → IsRunes t

byte_at-append : (a b : Bytes) (i : ℕ) → byte_at (a ++ b) (length a + i) ≡ byte_at b i
byte_at-append [] b i = rw zero-add
byte_at-append (x ∷ a) b i = rw suc-add (byte_at-append a b i)

back_off-append :
    (x : ℕ) (a b : Bytes) (m : ℕ)
    → rune_start (byte_at b 0) ≡ true
    → back_off (x ∷ (a ++ b)) (suc (length a + m)) ≡ suc (length a + back_off b m)
unfolding back_off
back_off-append x a b zero h = rw (byte_at-append a b 0, h)
back_off-append x a b (suc m) h =
    rw (byte_at-append a b (suc m)) (elim (Bool-cases (rune_start (byte_at b (suc m)))) [
      | inl start ↦ rw start refl
      | inr inside ↦ rw (inside, add-suc) (back_off-append x a b m h)
    ])

continuation :
    (ks s : Bytes) (n : ℕ)
    → AllContinue ks
    → n < length ks
    → rune_start (byte_at (ks ++ s) n) ≡ false
continuation [] s n k h = elim h [ ]
continuation (c ∷ ks) s zero k h = k.0
continuation (c ∷ ks) s (suc n) k h = continuation ks s n k.1 (omega arith)

back_off_first :
    (c : ℕ) (ks s : Bytes) (n : ℕ) → AllContinue ks → n ≤ length ks → back_off (c ∷ (ks ++ s)) n ≡ 0
unfolding back_off
back_off_first c ks s zero k h = refl
back_off_first c ks s (suc n) k h =
    rw (continuation ks s n k h) (back_off_first c ks s n k (omega arith))

pub back_off-le : (s : Bytes) (n : ℕ) → back_off s n ≤ n
unfolding back_off
back_off-le s zero = omega arith
back_off-le s (suc n) = ground (arith, back_off-le s n)

take-append : (a b : Bytes) (k : ℕ) → take (length a + k) (a ++ b) ≡ a ++ take k b
take-append [] b k = rw zero-add
take-append (x ∷ a) b k = rw suc-add (ap (◌∷◌ x) (take-append a b k))

starts : (s : Bytes) → IsRunes s → 0 < length s → rune_start (byte_at s 0) ≡ true
starts s (nil e) h = absurd (omega (arith, ap (λ (t : Bytes). length t) e))
starts s (rune c ks rest e h k l r) n = rw e h

-- The cut at `n` keeps whole runes and loses at most three bytes.
record IsCut (s : Bytes) (n : ℕ) : Type 0 where
  runes : IsRunes (take (back_off s n) s)
  near : n ≤ back_off s n + 3

IsCut-later :
    (c : ℕ) (ks s : Bytes) (m : ℕ)
    → rune_start c ≡ true
    → AllContinue ks
    → length ks ≤ 3
    → rune_start (byte_at s 0) ≡ true
    → IsCut s m
    → IsCut (c ∷ (ks ++ s)) (suc (length ks + m))
IsCut-later c ks s m start k l next cut =
    let e = back_off-append c ks s m next in
    record {
      runes =
          rw (e, take-append ks s (back_off s m))
            (rune c ks (take (back_off s m) s) refl start k l cut.runes);
      near = rw e (omega (arith, cut.near));
    }

IsCut-first :
    (c : ℕ) (ks s : Bytes) (n : ℕ)
    → AllContinue ks
    → length ks ≤ 3
    → n ≤ length ks
    → IsCut (c ∷ (ks ++ s)) n
IsCut-first c ks s n k l h =
    let e = back_off_first c ks s n k h in
    record { runes = rw e (nil refl); near = rw e (omega arith) }

back_off-IsCut : (s : Bytes) (n : ℕ) → IsRunes s → n < length s → IsCut s n
back_off-IsCut s n (nil e) h = absurd (omega (arith, ap (λ (t : Bytes). length t) e))
back_off-IsCut s n (rune c ks rest e start k l r) h = elim (dec_le n (length ks)) [
  | yes early ↦ rw e (IsCut-first c ks rest n k l early)
  | no late ↦
      let m = n - suc (length ks) in
      let size : length s ≡ suc (length ks + length rest) =
        ap (λ (t : Bytes). length t) e ∙ ap suc (length-append ks rest) in
      let inside : m < length rest = omega arith in
      let n_is : n ≡ suc (length ks + m) = omega arith in
      rw (e, n_is)
        (IsCut-later c ks rest m start k l (starts rest r (omega arith))
          (back_off-IsCut rest m r inside))
]

-- `shown` is the front of `s`, whole runes of at least limit - 3 and at most `limit` bytes, and the
-- marker.
pub record IsTruncated (limit : ℕ) (s shown : Bytes) : Type 0 where
  pub kept : Bytes
  pub rest : Bytes
  pub splits : s ≡ kept ++ rest
  pub shows : shown ≡ kept ++ marker
  pub runes : IsRunes kept
  pub fits : length kept ≤ limit
  pub near : limit ≤ length kept + 3

preview_within_long :
    (limit : ℕ) (s : Bytes)
    → IsRunes s
    → limit < length s
    → IsTruncated limit s (preview_within limit s)
unfolding preview_within
preview_within_long limit s r h =
    let cut = back_off-IsCut s limit r h in
    let end = back_off s limit in
    let long : leb (length s) limit ≡ false = ground arith in
    let size : length (take end s) ≡ end = length-take end s ∙ omega (arith, back_off-le s limit) in
    record {
      kept = take end s;
      rest = drop end s;
      splits = sym (take-append-drop end s);
      shows = rw long refl;
      runes = cut.runes;
      fits = omega (arith, back_off-le s limit);
      near = omega (arith, cut.near);
    }

-- A text of whole runes with more than 8192 bytes is cut between two runes, behind at least 8189
-- and at most 8192 of its bytes, and the marker is appended.
pub preview_long :
    (s : Bytes)
    → IsRunes s
    → payload_preview_limit < length s
    → IsTruncated payload_preview_limit s (preview s)
unfolding preview
preview_long s = preview_within_long payload_preview_limit s

preview_within_short : (limit : ℕ) (s : Bytes) → length s ≤ limit → preview_within limit s ≡ s
unfolding preview_within
preview_within_short limit s h = ground arith

-- Any text of at most 8192 bytes is shown whole.
preview_short : (s : Bytes) → length s ≤ payload_preview_limit → preview s ≡ s
unfolding preview
preview_short s = preview_within_short payload_preview_limit s

length-preview_within-le :
    (limit : ℕ) (s : Bytes) → length (preview_within limit s) ≤ limit + length marker
unfolding preview_within
length-preview_within-le limit s = ground (
  arith,
  length-append (take (back_off s limit) s) marker,
  length-take (back_off s limit) s,
  back_off-le s limit,
)

-- A preview of any bytes, valid UTF-8 or not, has at most 8192 bytes and the marker.
pub length-preview-le : (s : Bytes) → length (preview s) ≤ payload_preview_limit + length marker
unfolding preview
length-preview-le s = length-preview_within-le payload_preview_limit s
