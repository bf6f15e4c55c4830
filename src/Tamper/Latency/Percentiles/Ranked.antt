-- ===== src/Tamper/Latency/Percentiles/Ranked.antt =====
-- Percentiles returns durations that were measured, in order.
use mathlib.Core.Logic.Or
use mathlib.Core.List.{Perm, Mem, mem-cons}
use mathlib.Core.List.Perm
use hallmaster_proxy.Base.{
  ℕ, zero, suc, ◌-◌, ◌≤◌, ◌<◌, true, false, List, [], ◌∷◌, some, length, get_elem?, ℤ, All, ◌≡◌,
  refl, ◌∙◌, arith, inl, inr, Bool-cases, ap,
}
use hallmaster_proxy.Tamper.Latency.Percentiles.{
  leb_ℤ, insert_duration, sort_durations, p50, p95, p99, Scale, pick, percentiles,
}

infix 50 ◌≤ℤ◌
abbrev pub ◌≤ℤ◌ : ℤ → ℤ → Type 0
a ≤ℤ b = leb_ℤ a b ≡ true

≤ℤ_trans : (a b c : ℤ) → a ≤ℤ b → b ≤ℤ c → a ≤ℤ c
≤ℤ_trans a b c p q = ground arith

≤ℤ_total : (a b : ℤ) → leb_ℤ a b ≡ false → b ≤ℤ a
≤ℤ_total a b p = ground arith

≤ℤ_refl : (a : ℤ) → a ≤ℤ a
≤ℤ_refl a = ground arith

abbrev pub IsSorted : List ℤ → Type 0
IsSorted [] = Unit
IsSorted (d ∷ durations) = All (λ e. d ≤ℤ e) durations × IsSorted durations

All-below : (a b : ℤ) (l : List ℤ) → a ≤ℤ b → All (λ e. b ≤ℤ e) l → All (λ e. a ≤ℤ e) l
All-below a b [] h all = tt
All-below a b (e ∷ l) h all = (≤ℤ_trans a b e h all.0, All-below a b l h all.1)

All-insert_duration :
    (a d : ℤ) (l : List ℤ) → a ≤ℤ d → All (λ e. a ≤ℤ e) l → All (λ e. a ≤ℤ e) (insert_duration d l)
unfolding insert_duration
All-insert_duration a d [] h all = (h, tt)
All-insert_duration a d (e ∷ l) h all = elim (Bool-cases (leb_ℤ d e)) [
  | inl first ↦ rw first (h, all)
  | inr later ↦ rw later (all.0, All-insert_duration a d l h all.1)
]

insert_duration-IsSorted : (d : ℤ) (l : List ℤ) → IsSorted l → IsSorted (insert_duration d l)
unfolding insert_duration
insert_duration-IsSorted d [] s = (tt, tt)
insert_duration-IsSorted d (e ∷ l) s = elim (Bool-cases (leb_ℤ d e)) [
  | inl first ↦ rw first ((first, All-below d e l first s.0), s)
  | inr later ↦
      rw later
        (All-insert_duration e d l (≤ℤ_total d e later) s.0, insert_duration-IsSorted d l s.1)
]

pub sort_durations-IsSorted : (l : List ℤ) → IsSorted (sort_durations l)
unfolding sort_durations
sort_durations-IsSorted [] = tt
sort_durations-IsSorted (d ∷ l) =
    insert_duration-IsSorted d (sort_durations l) (sort_durations-IsSorted l)

insert_duration-perm : (d : ℤ) (l : List ℤ) → Perm (insert_duration d l) (d ∷ l)
unfolding insert_duration
insert_duration-perm d [] = Perm.rfl
insert_duration-perm d (e ∷ l) = elim (Bool-cases (leb_ℤ d e)) [
  | inl first ↦ rw first Perm.rfl
  | inr later ↦ rw later (Perm.trans (Perm.cons e (insert_duration-perm d l)) (Perm.swap d e l))
]

pub sort_durations-perm : (l : List ℤ) → Perm (sort_durations l) l
unfolding sort_durations
sort_durations-perm [] = Perm.rfl
sort_durations-perm (d ∷ l) =
    Perm.trans (insert_duration-perm d (sort_durations l)) (Perm.cons d (sort_durations-perm l))

All-of_insert :
    (m d : ℤ) (l : List ℤ)
    → All (λ e. e ≤ℤ m) (insert_duration d l)
    → (d ≤ℤ m) × All (λ e. e ≤ℤ m) l
unfolding insert_duration
All-of_insert m d [] = λ all. (all.0, tt)
All-of_insert m d (e ∷ l) = elim (Bool-cases (leb_ℤ d e)) [
  | inl first ↦ rw first (λ all. (all.0, all.1))
  | inr later ↦
      rw later (λ all. let (here, there) = All-of_insert m d l all.1 in (here, (all.0, there)))
]

pub All-of_sort : (m : ℤ) (l : List ℤ) → All (λ e. e ≤ℤ m) (sort_durations l) → All (λ e. e ≤ℤ m) l
unfolding sort_durations
All-of_sort m [] all = tt
All-of_sort m (d ∷ l) all =
    let (here, there) = All-of_insert m d (sort_durations l) all in (here, All-of_sort m l there)

length-insert_duration : (d : ℤ) (l : List ℤ) → length (insert_duration d l) ≡ suc (length l)
unfolding insert_duration
length-insert_duration d [] = refl
length-insert_duration d (e ∷ l) = ground (arith, length-insert_duration d l)

pub length-sort_durations : (l : List ℤ) → length (sort_durations l) ≡ length l
unfolding sort_durations
length-sort_durations [] = refl
length-sort_durations (d ∷ l) =
    length-insert_duration d (sort_durations l) ∙ ap suc (length-sort_durations l)

pub elem_at : (l : List ℤ) (i : ℕ) → i < length l → (d : ℤ) × (get_elem? l i ≡ some d)
elem_at [] i h = absurd (omega arith)
elem_at (d ∷ l) zero h = (d, refl)
elem_at (d ∷ l) (suc i) h = elem_at l i (omega arith)

below_all :
    (a : ℤ) (l : List ℤ) (i : ℕ) {d : ℤ} → All (λ e. a ≤ℤ e) l → get_elem? l i ≡ some d → a ≤ℤ d
below_all a [] i all h = cc
below_all a (e ∷ l) zero all h = ground arith
below_all a (e ∷ l) (suc i) all h = below_all a l i all.1 h

pub in_order :
    (l : List ℤ) (i j : ℕ) {a b : ℤ}
    → IsSorted l
    → i ≤ j
    → get_elem? l i ≡ some a
    → get_elem? l j ≡ some b
    → a ≤ℤ b
in_order [] i j s le p q = cc
in_order (d ∷ l) zero zero s le p q = ground arith
in_order (d ∷ l) zero (suc j) {a} {b} s le p q = let below = below_all d l j s.0 q in ground arith
in_order (d ∷ l) (suc i) zero s le p q = absurd (omega arith)
in_order (d ∷ l) (suc i) (suc j) s le p q = in_order l i j s.1 (omega arith) p q

pub elem-mem : (l : List ℤ) (i : ℕ) {d : ℤ} → get_elem? l i ≡ some d → Mem d l
elem-mem [] i h = cc
elem-mem (e ∷ l) zero {d} h = mem-cons.1 (Or.inl (ground arith))
elem-mem (e ∷ l) (suc i) h = mem-cons.1 (Or.inr (elem-mem l i h))

-- What IEEE arithmetic gives for a fraction below 1: the index is in range, and grows with the
-- fraction.
pub record IsScale (scale : Scale) : Type 0 where
  pub within : (n : ℕ) → scale n p99 ≤ n
  pub p50_le : (n : ℕ) → scale n p50 ≤ scale n p95
  pub p95_le : (n : ℕ) → scale n p95 ≤ scale n p99

-- Of any durations but none, Percentiles returns three that were measured, in ascending order; no
-- index is out of range.
pub percentiles-Mem :
    (scale : Scale) (d : ℤ) (durations : List ℤ)
    → IsScale scale
    → (a b c : ℤ) × (percentiles scale (d ∷ durations) ≡ some (a, (b, c)))
      × (a ≤ℤ b)
      × (b ≤ℤ c)
      × Mem a (d ∷ durations)
      × Mem b (d ∷ durations)
      × Mem c (d ∷ durations)
unfolding percentiles pick
percentiles-Mem scale d durations is_scale =
    let sorted = sort_durations (d ∷ durations) in
    let n = length sorted - 1 in
    let size = length-sort_durations (d ∷ durations) in
    let in_range = is_scale.within n in
    let le = is_scale.p50_le n in
    let le' = is_scale.p95_le n in
    let (a, at_a) = elem_at sorted (scale n p50) (omega arith) in
    let (b, at_b) = elem_at sorted (scale n p95) (omega arith) in
    let (c, at_c) = elem_at sorted (scale n p99) (omega arith) in
    let is_sorted = sort_durations-IsSorted (d ∷ durations) in
    let same =
      λ (e : ℤ) (m : Mem e sorted). (Perm.mem_iff (sort_durations-perm (d ∷ durations))).0 m in
    (
      a,
      b,
      c,
      rw (at_a, at_b, at_c) refl,
      in_order sorted (scale n p50) (scale n p95) is_sorted le at_a at_b,
      in_order sorted (scale n p95) (scale n p99) is_sorted le' at_b at_c,
      same a (elem-mem sorted (scale n p50) at_a),
      same b (elem-mem sorted (scale n p95) at_b),
      same c (elem-mem sorted (scale n p99) at_c),
    )
