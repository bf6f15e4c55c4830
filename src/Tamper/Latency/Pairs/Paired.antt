-- ===== src/Tamper/Latency/Pairs/Paired.antt =====
-- Pairs ends, within the capacity that it allocates, and what it measures.
use hallmaster_proxy.Base.{
  ℕ, zero, suc, ◌+◌, ◌*◌, ◌/◌, ◌≤◌, true, false, List, [], ◌∷◌, ◌++◌, Option, none, some, ◌≡◌, refl,
  ap, ◌∙◌, arith, inl, inr, length, length-append, Bool-cases, Option-cases, ℤ, sub_ℕ, All,
}
use hallmaster_proxy.Tamper.Latency.{Kind, Sample, LatencyTamperer}
use hallmaster_proxy.Tamper.Latency.Pairs.{is_kind, next_exit, pairs_loop, pairs}

abbrev pub NoExit : Kind → List Sample → Type 0
NoExit exit = All (λ s. is_kind exit s ≡ false)

-- The reading of the samples that Pairs stands for: each `enter` is paired with the first `exit`
-- behind it, and the samples in between are passed over.
pub data Paired (enter exit : Kind) : List Sample → List ℤ → Type 0 where
  done : Paired enter exit [] []
  other :
      {s : Sample} {rest : List Sample} {durations : List ℤ}
      → is_kind enter s ≡ false
      → Paired enter exit rest durations
      → Paired enter exit (s ∷ rest) durations
  alone :
      {s : Sample} {rest : List Sample} {durations : List ℤ}
      → is_kind enter s ≡ true
      → NoExit exit rest
      → Paired enter exit rest durations
      → Paired enter exit (s ∷ rest) durations
  paired :
      (t : Sample) (between rest' : List Sample) {s : Sample} {rest : List Sample}
      {durations : List ℤ}
      → is_kind enter s ≡ true
      → NoExit exit between
      → is_kind exit t ≡ true
      → rest ≡ between ++ (t ∷ rest')
      → Paired enter exit rest' durations
      → Paired enter exit (s ∷ rest) (sub_ℕ t.at s.at ∷ durations)

module _ (enter exit : Kind) where
  -- What the loop comes to: durations that are right, and two samples for each.
  abbrev pub Result : List Sample → Option (List ℤ) → Type 0
  Result samples r =
      (durations : List ℤ) × (r ≡ some durations)
      × Paired enter exit samples durations
      × (2 * length durations ≤ length samples)

  next_exit-NoExit : (rest : List Sample) → next_exit exit rest ≡ none → NoExit exit rest
  unfolding next_exit
  next_exit-NoExit [] h = tt
  next_exit-NoExit (t ∷ rest) h = elim (Bool-cases (is_kind exit t)) [
    | inl e ↦ ground arith
    | inr e ↦ (e, next_exit-NoExit rest (ground arith))
  ]

  next_exit-split :
      (rest : List Sample) {t : Sample} {rest' : List Sample}
      → next_exit exit rest ≡ some (t, rest')
      → (between : List Sample) × NoExit exit between
        × (is_kind exit t ≡ true)
        × (rest ≡ between ++ (t ∷ rest'))
  unfolding next_exit
  next_exit-split [] h = ground arith
  next_exit-split (x ∷ rest) h = elim (Bool-cases (is_kind exit x)) [
    | inl e ↦ ([], tt, ground arith, ground arith)
    | inr e ↦
        let (between, none_between, is_exit, split) = next_exit-split rest (ground arith) in
        (x ∷ between, (e, none_between), is_exit, ap (λ l. x ∷ l) split)
  ]

  pairs_nil : (fuel : ℕ) → pairs_loop fuel enter exit [] ≡ some []
  unfolding pairs_loop
  pairs_nil zero = refl
  pairs_nil (suc fuel) = refl

  -- The three kinds of round.
  module _ (fuel : ℕ) (s : Sample) (rest : List Sample) where
    pass_other :
        is_kind enter s ≡ false
        → pairs_loop (suc fuel) enter exit (s ∷ rest) ≡ pairs_loop fuel enter exit rest
    unfolding pairs_loop
    pass_other e = ground arith

    pass_alone :
        is_kind enter s ≡ true
        → next_exit exit rest ≡ none
        → pairs_loop (suc fuel) enter exit (s ∷ rest) ≡ pairs_loop fuel enter exit rest
    unfolding pairs_loop
    pass_alone e lone = ground arith

    take_pair :
        {t : Sample} {rest' : List Sample} {durations : List ℤ}
        → is_kind enter s ≡ true
        → next_exit exit rest ≡ some (t, rest')
        → pairs_loop fuel enter exit rest' ≡ some durations
        → pairs_loop (suc fuel) enter exit (s ∷ rest) ≡ some (sub_ℕ t.at s.at ∷ durations)
    unfolding pairs_loop
    take_pair e found r = ground arith

  pairs_loop-Result :
      (fuel : ℕ) (samples : List Sample)
      → length samples ≤ fuel
      → Result samples (pairs_loop fuel enter exit samples)
  pairs_loop-Result fuel [] h = ([], pairs_nil fuel, done, omega arith)
  pairs_loop-Result zero (s ∷ rest) h = absurd (omega arith)
  pairs_loop-Result (suc fuel) (s ∷ rest) h = elim (Bool-cases (is_kind enter s)) [
    | inr e ↦
        let (durations, r, p, n) = pairs_loop-Result fuel rest (omega arith) in
        (durations, pass_other fuel s rest e ∙ r, other e p, omega arith)
    | inl e ↦ elim (Option-cases (next_exit exit rest)) [
      | inl lone ↦
          let (durations, r, p, n) = pairs_loop-Result fuel rest (omega arith) in
          (
            durations,
            pass_alone fuel s rest e lone ∙ r,
            alone e (next_exit-NoExit rest lone) p,
            omega arith,
          )
      | inr ((t, rest'), found) ↦
          let (between, none_between, is_exit, split) = next_exit-split rest found in
          let longer : length rest ≡ length between + suc (length rest') =
            ap length split ∙ length-append between (t ∷ rest') in
          let (durations, r, p, n) = pairs_loop-Result fuel rest' (omega arith) in
          (
            sub_ℕ t.at s.at ∷ durations,
            take_pair fuel s rest e found r,
            paired t between rest' e none_between is_exit split p,
            omega arith,
          )
    ]
  ]

-- Pairs ends with one duration for each pair, in order: the pairs are found from the front, an `enter`
-- sample that has an `exit` behind it making one with the first such, and the search going on behind
-- that exit, so that an `enter` between the two makes none; an `enter` with no `exit` behind it makes
-- none either. There are at most half as many durations as samples, the capacity that is allocated
-- for them.
pub pairs-Paired :
    (l : LatencyTamperer) (enter exit : Kind)
    → (durations : List ℤ) × (pairs l enter exit ≡ some durations)
      × Paired enter exit l.samples durations
      × (length durations ≤ length l.samples / 2)
unfolding pairs
pairs-Paired l enter exit =
    let (durations, r, p, n) =
      pairs_loop-Result enter exit (length l.samples) l.samples (omega arith) in
    (durations, r, p, omega arith)
