-- ===== src/Driver/Ops/Ends.antt =====
-- runOps comes to its end.
use mathlib.Core.List.{Perm}
use hallmaster_proxy.Base.{
  ℕ, zero, suc, ◌+◌, ◌-◌, ◌*◌, ◌≤◌, ◌<◌, Bool, true, false, List, [], ◌∷◌, ◌++◌, length, ◌≡◌, refl,
  subst, sym, ap, ◌∙◌, arith, append-nil, length-append, ◌⊎◌, inl, inr, Bool-cases, ltb,
}
use hallmaster_proxy.Driver.{Scenario, compute_target, workers}
use hallmaster_proxy.Driver.Ops.{
  Pool, Step, cancel, send, give_up, close, take, call, return, leave, Reach,
}
use hallmaster_proxy.Driver.Ops.Ordered.{range, IsOrdered, Reach-IsOrdered}

abbrev one_if : Bool → ℕ
one_if true = 1
one_if false = 0

-- What is left to do.
abbrev pub measure : ℕ → Pool → ℕ
measure target s =
    5 * (target - s.next)
    + 4 * length s.channel
    + 3 * length s.held
    + 2 * length s.running
    + s.idle
    + one_if s.producing
    + (1 - one_if s.cancelled)

module _ (target workers : ℕ) where
  Step-measure : {s u : Pool} → Step target s u → measure target u < measure target s
  Step-measure {s} (cancel going_on f) = rw f (rw going_on (omega arith))
  Step-measure {s} (send producing below room f) =
      rw f (omega (arith, below, length-append s.channel (s.next ∷ [])))
  Step-measure {s} (give_up producing done f) = rw f (rw producing (omega arith))
  Step-measure {s} (close producing all f) = rw f (rw producing (omega arith))
  Step-measure {s} (take i k rest idle queued f) = rw f (rw (idle, queued) (omega arith))
  Step-measure {s} (call i before behind holds f) =
      rw f
        (rw holds (omega (arith, length-append before (i ∷ behind), length-append before behind)))
  Step-measure {s} (return i before behind running f) =
      rw f
        (rw running (omega (arith, length-append before (i ∷ behind), length-append before behind)))
  Step-measure {s} (leave k stopped empty idle f) = rw f (rw idle (omega arith))

  -- runOps returns: all workers have, and their calls.
  pub record IsEnded (s : Pool) : Type 0 where
    pub all_left : s.left ≡ workers
    pub none_held : s.held ≡ []
    pub none_running : s.running ≡ []
    -- one call for each number that was sent, and without a cancellation for all of them
    pub called : Perm s.called (range s.next)
    pub complete : s.cancelled ≡ false → Perm s.called (range target)

  below_or : (n : ℕ) → n ≤ target → (n < target) ⊎ (n ≡ target)
  below_or n le = elim (Bool-cases (ltb n target)) [
    | inl e ↦ inl (ground arith)
    | inr e ↦ inr (ground arith)
  ]

  ended :
      (s : Pool) (k : ℕ)
      → workers ≡ suc k
      → IsOrdered target workers s
      → s.idle ≡ 0
      → s.held ≡ []
      → s.running ≡ []
      → IsEnded s
  ended s k some_worker h idle none_held none =
      let held = ap length none_held in
      let counted = ap length none in
      let left : s.left ≡ workers = omega (arith, h.crew, idle, held, counted) in
      let (stopped, empty) = h.closed k (left ∙ some_worker) in
      let received : s.received ≡ range s.next =
        sym (append-nil s.received)
        ∙ ap (λ (l : List ℕ). s.received ++ l) (sym empty)
        ∙ h.in_order in
      let all : s.called ++ s.held ≡ s.called =
        ap (λ (l : List ℕ). s.called ++ l) none_held ∙ append-nil s.called in
      let called : Perm s.called (range s.next) =
        subst (λ (l : List ℕ). Perm l (range s.next)) all
          (subst (Perm (s.called ++ s.held)) received h.accounted) in
      record {
        all_left = left;
        none_held = none_held;
        none_running = none;
        called = called;
        complete = λ going_on.
            subst (λ (n : ℕ). Perm s.called (range n)) (h.complete stopped going_on) called;
      }

  with_worker :
      (s : Pool) (k : ℕ) (queue : List ℕ) (producing : Bool)
      → IsOrdered target workers s
      → s.idle ≡ suc k
      → s.channel ≡ queue
      → s.producing ≡ producing
      → (u : Pool) × Step target s u
  with_worker s k (i ∷ rest) producing h idle queued p = (_, take i k rest idle queued refl)
  with_worker s k [] false h idle empty p = (_, leave k p empty idle refl)
  with_worker s k [] true h idle empty p = elim (below_or s.next h.bounded) [
    | inl below ↦ (_, send p below (rw empty (omega arith)) refl)
    | inr all ↦ (_, close p all refl)
  ]

  without_worker :
      (s : Pool) (k : ℕ) (held running : List ℕ)
      → workers ≡ suc k
      → IsOrdered target workers s
      → s.idle ≡ 0
      → s.held ≡ held
      → s.running ≡ running
      → IsEnded s ⊎ ((u : Pool) × Step target s u)
  without_worker s k [] [] some_worker h idle none_held none =
      inl (ended s k some_worker h idle none_held none)
  without_worker s k [] (i ∷ behind) some_worker h idle none_held running =
      inr (_, return i [] behind running refl)
  without_worker s k (i ∷ behind) running some_worker h idle holds runs =
      inr (_, call i [] behind holds refl)

  progress :
      (s : Pool) (k n : ℕ)
      → workers ≡ suc k
      → IsOrdered target workers s
      → s.idle ≡ n
      → IsEnded s ⊎ ((u : Pool) × Step target s u)
  progress s k zero some_worker h idle =
      without_worker s k s.held s.running some_worker h idle refl refl
  progress s k (suc n) some_worker h idle =
      inr (with_worker s n s.channel s.producing h idle refl refl)

  Reach-ends :
      (s : Pool) (k : ℕ)
      → workers ≡ suc k
      → Reach target workers s
      → (IsEnded s ⊎ ((u : Pool) × Step target s u))
        × ((u : Pool) → Step target s u → measure target u < measure target s)
  Reach-ends s k some_worker r = (
    progress s k s.idle some_worker (Reach-IsOrdered target workers s r) refl,
    λ u step. Step-measure step,
  )

workers-some : (scn : Scenario) → (k : ℕ) × (workers scn ≡ suc k)
workers-some scn = (workers scn - 1, ground arith)

-- With calls of op that return, runOps is never stuck and cannot go on for ever: after any steps,
-- either all workers have returned, no number is held and no call of op runs, and op was called once
-- for each of 0, 1 and so on, in whatever order, up to the target unless the context was done; or
-- else there is a next step; and every step lessens a measure.
pub run_ops-ends :
    (scn : Scenario) (s : Pool)
    → Reach (compute_target scn) (workers scn) s
    → (IsEnded (compute_target scn) (workers scn) s ⊎ ((u : Pool) × Step (compute_target scn) s u))
      × ((u : Pool)
          → Step (compute_target scn) s u
          → measure (compute_target scn) u < measure (compute_target scn) s)
run_ops-ends scn s r =
    let (k, some_worker) = workers-some scn in
    Reach-ends (compute_target scn) (workers scn) s k some_worker r
