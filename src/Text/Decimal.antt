-- ===== src/Text/Decimal.antt =====
-- strconv.Itoa on a number that is not negative, and its inverse.
use hallmaster_proxy.Base.{
  ℕ, zero, suc, ◌+◌, ◌-◌, ◌*◌, ◌/◌, ◌%◌, ◌<◌, [], ◌∷◌, ◌++◌, ◌≡◌, refl, arith, ltb, if◌then◌else◌,
  Bool-cases, inl, inr,
}
use hallmaster_proxy.Text.{Bytes}

-- More rounds than the number has digits.
unfoldable pub digits : ℕ → ℕ → Bytes
digits zero n = []
digits (suc fuel) n =
    let front = digits fuel (n / 10) in
    if ltb n 10 then (n + b'0') ∷ [] else front ++ (n % 10 + b'0') ∷ []

-- strconv.Itoa
unfoldable pub itoa : ℕ → Bytes
unfolding digits
itoa n = digits (n + 1) n

-- The number that a row of digits stands for.
abbrev pub value_from : ℕ → Bytes → ℕ
value_from acc [] = acc
value_from acc (c ∷ s) = value_from (acc * 10 + (c - b'0')) s

abbrev pub decimal_value : Bytes → ℕ
decimal_value = value_from 0

value_from-append :
    (acc : ℕ) (a b : Bytes) → value_from acc (a ++ b) ≡ value_from (value_from acc a) b
value_from-append acc [] b = refl
value_from-append acc (c ∷ a) b = value_from-append (acc * 10 + (c - b'0')) a b

value-digits : (fuel n : ℕ) → n < fuel → decimal_value (digits fuel n) ≡ n
unfolding digits
value-digits zero n h = absurd (omega arith)
value-digits (suc fuel) n h = elim (Bool-cases (ltb n 10)) [
  | inl small ↦ rw small (omega arith)
  | inr large ↦
      rw (large, value_from-append 0 (digits fuel (n / 10)) ((n % 10 + b'0') ∷ []))
        (omega (arith, value-digits fuel (n / 10) (ground arith)))
]

-- Enough rounds are given: the digits stand for the number.
pub decimal_value-itoa : (n : ℕ) → decimal_value (itoa n) ≡ n
unfolding itoa
decimal_value-itoa n = value-digits (n + 1) n (omega arith)
