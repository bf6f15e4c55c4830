-- ===== src/Text/Atoi.antt =====
-- strconv.Atoi on 64 bits.
use hallmaster_proxy.Base.{
  ℕ, zero, suc, ◌+◌, ◌/◌, ◌%◌, ◌^◌, ◌<◌, Bool, true, ◌&&◌, [], ◌∷◌, ◌++◌, Option, none, some, ℤ,
  pos, negsuc, ◌≡◌, ◌≢◌, refl, arith, ltb, leb, ◌==◌, if◌then◌else◌, Bool-cases, inl, inr,
}
use hallmaster_proxy.Text.{Bytes}
use hallmaster_proxy.Text.Decimal.{digits, itoa, decimal_value, decimal_value-itoa}

all_digits : Bytes → Bool
all_digits [] = true
all_digits (c ∷ s) = let rest = all_digits s in (leb b'0' c && leb c b'9') && rest

unsigned : Bytes → Option ℕ
unfolding all_digits
unsigned [] = none
unsigned (c ∷ s) = if all_digits (c ∷ s) then some (decimal_value (c ∷ s)) else none

abbrev positive : Option ℕ → Option ℤ
positive none = none
positive (some n) = if ltb n (2 ^ 63) then some (pos n) else none

abbrev opposite : ℕ → ℤ
opposite zero = pos 0
opposite (suc n) = negsuc n

abbrev negative : Option ℕ → Option ℤ
negative none = none
negative (some n) = if leb n (2 ^ 63) then some (opposite n) else none

-- `none` is an error
unfoldable pub atoi : Bytes → Option ℤ
unfolding unsigned
atoi [] = none
atoi (c ∷ s) =
    if c == b'-'
    then negative (unsigned s)
    else if c == b'+'
    then positive (unsigned s)
    else positive (unsigned (c ∷ s))

all_digits-append : (a b : Bytes) → all_digits (a ++ b) ≡ (all_digits a && all_digits b)
unfolding all_digits
all_digits-append [] b = refl
all_digits-append (c ∷ a) b = ground (arith, all_digits-append a b)

all_digits-digits : (fuel n : ℕ) → n < fuel → all_digits (digits fuel n) ≡ true
unfolding all_digits digits
all_digits-digits zero n h = absurd (omega arith)
all_digits-digits (suc fuel) n h = elim (Bool-cases (ltb n 10)) [
  | inl small ↦ rw small (ground arith)
  | inr large ↦
      rw
        (
          large,
          all_digits-append (digits fuel (n / 10)) ((n % 10 + b'0') ∷ []),
          all_digits-digits fuel (n / 10) (ground arith),
        )
        (ground arith)
]

-- A row of digits is no sign, and not empty.
read_digits :
    (s : Bytes) (n : ℕ)
    → all_digits s ≡ true
    → s ≢ []
    → decimal_value s ≡ n
    → n < 2 ^ 63
    → atoi s ≡ some (pos n)
unfolding atoi unsigned all_digits
read_digits [] n digits some_digit value small = absurd (some_digit refl)
read_digits (c ∷ s) n digits some_digit value small = ground (arith, value)

append-some : (a : Bytes) (c : ℕ) → a ++ (c ∷ []) ≢ []
append-some [] c h = cc
append-some (x ∷ a) c h = cc

digits-some : (fuel n : ℕ) → n < fuel → digits fuel n ≢ []
unfolding digits
digits-some zero n h = absurd (omega arith)
digits-some (suc fuel) n h = elim (Bool-cases (ltb n 10)) [
  | inl small ↦ rw small (λ e. cc)
  | inr large ↦ rw large (append-some (digits fuel (n / 10)) (n % 10 + b'0'))
]

-- Atoi reads back what Itoa prints.
pub atoi-itoa : (n : ℕ) → n < 2 ^ 63 → atoi (itoa n) ≡ some (pos n)
unfolding itoa
atoi-itoa n small =
    read_digits (itoa n) n (all_digits-digits (n + 1) n (omega arith))
      (digits-some (n + 1) n (omega arith)) (decimal_value-itoa n) small
