-- ===== src/Text/Affix.antt =====
-- What the tests on prefixes, suffixes and equality decide.
use hallmaster_proxy.Base.{
  ℕ, ◌+◌, ◌-◌, true, false, [], ◌∷◌, ◌++◌, ◌≡◌, ◌↔◌, refl, sym, ap, ◌∙◌, arith, leb, length, take,
  drop, length-append, take-append-drop, take_prefix, drop_prefix, le→leb, &&-eq-true,
}
use hallmaster_proxy.Text.{Bytes, equal, has_suffix, trim_suffix}

pub equal_iff : (s t : Bytes) → (equal s t ≡ true) ↔ (s ≡ t)
unfolding equal
equal_iff [] [] = ground arith
equal_iff [] (y ∷ t) = ground arith
equal_iff (x ∷ s) [] = ground arith
equal_iff (x ∷ s) (y ∷ t) = ground (equal_iff s t, arith)

pub equal_refl : (a : Bytes) → equal a a ≡ true
equal_refl a = (equal_iff a a).1 refl

sub_add : (m n : ℕ) → (m + n) - n ≡ m
sub_add m n = omega arith

drop_front : (a b : Bytes) → drop (length (a ++ b) - length b) (a ++ b) ≡ b
drop_front a b = rw (length-append a b, sub_add) (drop_prefix a b)

pub has_suffix-append : (a b : Bytes) → has_suffix (a ++ b) b ≡ true
unfolding has_suffix
has_suffix-append a b =
    rw (le→leb (length b) (length (a ++ b)) (omega (arith, length-append a b)), drop_front a b)
      (equal_refl b)

pub has_suffix-split : (s b : Bytes) → has_suffix s b ≡ true → (a : Bytes) × (s ≡ a ++ b)
unfolding has_suffix
has_suffix-split s b h =
    let n = length s - length b in
    let (long, same) = &&-eq-true (leb (length b) (length s)) (equal (drop n s) b) h in
    (
      take n s,
      sym (take-append-drop n s) ∙ ap (λ t. take n s ++ t) ((equal_iff (drop n s) b).0 same),
    )

-- `s` ends with `b`.
pub has_suffix_iff : (s b : Bytes) → (has_suffix s b ≡ true) ↔ ((a : Bytes) × (s ≡ a ++ b))
has_suffix_iff s b = (has_suffix-split s b, λ p. rw p.1 (has_suffix-append p.0 b))

pub trim_suffix-append : (a b : Bytes) → trim_suffix (a ++ b) b ≡ a
unfolding trim_suffix
trim_suffix-append a b = rw (has_suffix-append a b, length-append a b, sub_add) (take_prefix a b)

pub trim_suffix_none : (s b : Bytes) → has_suffix s b ≡ false → trim_suffix s b ≡ s
unfolding trim_suffix
trim_suffix_none s b h = rw h

-- Two ways to cut one text are the same if the ends have the same length.
pub append_cancel : (a b c d : Bytes) → length b ≡ length d → a ++ b ≡ c ++ d → (a ≡ c) × (b ≡ d)
append_cancel [] b [] d l e = (refl, e)
append_cancel [] b (y ∷ c) d l e =
    absurd (omega (arith, ap (λ (t : Bytes). length t) e, length-append c d))
append_cancel (x ∷ a) b [] d l e =
    absurd (omega (arith, ap (λ (t : Bytes). length t) e, length-append a b))
append_cancel (x ∷ a) b (y ∷ c) d l e = ground (arith, append_cancel a b c d l)
