-- ===== src/Tamper/Latency/Percentiles.antt =====
-- Percentiles of internaltest/latency.go. The product of a length and a fraction is made in floating
-- point, and is a parameter.
pub mod Ranked
use hallmaster_proxy.Base.{
  ℕ, zero, suc, ◌+◌, ◌-◌, Bool, true, false, List, [], ◌∷◌, Option, none, some, leb, if◌then◌else◌,
  length, get_elem?, ℤ, pos, negsuc,
}

-- a ≤ b
abbrev pub leb_ℤ : ℤ → ℤ → Bool
leb_ℤ (pos a) (pos b) = leb a b
leb_ℤ (pos a) (negsuc b) = false
leb_ℤ (negsuc a) (pos b) = true
leb_ℤ (negsuc a) (negsuc b) = leb b a

-- sort.Slice; equal durations cannot be told apart
pub insert_duration : ℤ → List ℤ → List ℤ
insert_duration d [] = d ∷ []
insert_duration d (e ∷ durations) =
    let rest = insert_duration d durations in if leb_ℤ d e then d ∷ e ∷ durations else e ∷ rest

unfoldable pub sort_durations : List ℤ → List ℤ
unfolding insert_duration
sort_durations [] = []
sort_durations (d ∷ durations) = insert_duration d (sort_durations durations)

-- The three fractions, and int(float64(n) * p).
pub data Fraction : Type 0 where
  p50 : Fraction
  p95 : Fraction
  p99 : Fraction

abbrev pub Scale : Type 0
Scale = ℕ → Fraction → ℕ

-- pick; `none` is an index out of range
unfoldable pub pick : Scale → List ℤ → Fraction → Option ℤ
pick scale durations p = get_elem? durations (scale (length durations - 1) p)

abbrev pub both : {A B : Type 0} → Option A → Option B → Option (A × B)
both none b = none
both (some a) none = none
both (some a) (some b) = some (a, b)

unfoldable pub percentiles : Scale → List ℤ → Option (ℤ × (ℤ × ℤ))
unfolding pick sort_durations
percentiles scale [] = some (pos 0, (pos 0, pos 0))
percentiles scale (d ∷ durations) =
    let sorted = sort_durations (d ∷ durations) in
    both (pick scale sorted p50) (both (pick scale sorted p95) (pick scale sorted p99))
