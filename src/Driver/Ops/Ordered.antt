-- ===== src/Driver/Ops/Ordered.antt =====
-- Which operations runOps starts.
use mathlib.Core.List.{Perm, perm_append_singleton, perm_middle}
use mathlib.Core.List.Perm
use hallmaster_proxy.Base.{
  ℕ, zero, suc, ◌+◌, ◌≤◌, ◌<◌, true, false, List, [], ◌∷◌, ◌++◌, length, ◌≡◌, refl, sym, ap, ◌∙◌,
  arith, append_assoc, length-append, subst,
}
use hallmaster_proxy.Driver.Ops.{
  capacity, Pool, begin, Step, cancel, send, give_up, close, take, call, return, leave, Reach,
  start, later,
}

-- 0, 1, …, n - 1
abbrev pub range : ℕ → List ℕ
range zero = []
range (suc n) = range n ++ (n ∷ [])

-- What holds between the steps.
pub record IsOrdered (target workers : ℕ) (s : Pool) : Type 0 where
  pub in_order : s.received ++ s.channel ≡ range s.next
  -- every number that was received is held by one worker, or was called once
  pub accounted : Perm (s.called ++ s.held) s.received
  pub bounded : s.next ≤ target
  pub room : length s.channel ≤ capacity
  pub crew : s.idle + length s.held + length s.running + s.left ≡ workers
  -- the producer stops early only where the context is done
  pub complete : s.producing ≡ false → s.cancelled ≡ false → s.next ≡ target
  -- workers return behind the last number
  pub closed : (k : ℕ) → s.left ≡ suc k → (s.producing ≡ false) × (s.channel ≡ [])

module _ (target workers : ℕ) where
  begin-IsOrdered : IsOrdered target workers (begin workers)
  begin-IsOrdered = record {
    in_order = refl;
    accounted = Perm.rfl;
    bounded = omega arith;
    room = omega arith;
    crew = omega arith;
    complete = λ stopped going_on. absurd (cc stopped);
    closed = λ k some_left. absurd (omega (arith, some_left));
  }

  send-IsOrdered :
      (s : Pool)
      → IsOrdered target workers s
      → s.producing ≡ true
      → s.next < target
      → length s.channel < capacity
      → IsOrdered target workers
          (record s { next = suc s.next; channel = s.channel ++ (s.next ∷ []) })
  send-IsOrdered s h producing below room = record {
    in_order =
        sym (append_assoc s.received s.channel (s.next ∷ []))
        ∙ ap (λ (l : List ℕ). l ++ (s.next ∷ [])) h.in_order;
    accounted = h.accounted;
    bounded = omega (arith, below);
    room = omega (arith, room, length-append s.channel (s.next ∷ []));
    crew = h.crew;
    complete = λ stopped going_on. absurd (cc (sym producing ∙ stopped));
    closed = λ k e. absurd (cc (sym producing ∙ (h.closed k e).0));
  }

  take-IsOrdered :
      (s : Pool) (i k : ℕ) (rest : List ℕ)
      → IsOrdered target workers s
      → s.idle ≡ suc k
      → s.channel ≡ i ∷ rest
      → IsOrdered target workers (record s {
        idle = k;
        channel = rest;
        received = s.received ++ (i ∷ []);
        held = i ∷ s.held;
      })
  take-IsOrdered s i k rest h idle queued = record {
    in_order =
        append_assoc s.received (i ∷ []) rest
        ∙ ap (λ (l : List ℕ). s.received ++ l) (sym queued)
        ∙ h.in_order;
    accounted =
        Perm.trans (perm_middle s.called s.held)
          (Perm.trans (Perm.cons i h.accounted) (Perm.symm (perm_append_singleton i s.received)));
    bounded = h.bounded;
    room = let longer = ap length queued in omega (arith, h.room, longer);
    crew = omega (arith, h.crew, idle);
    complete = h.complete;
    closed = λ k e. absurd (cc (sym queued ∙ (h.closed k e).1));
  }

  call-accounted :
      (s : Pool) (i : ℕ) (before behind : List ℕ)
      → IsOrdered target workers s
      → s.held ≡ before ++ (i ∷ behind)
      → Perm ((s.called ++ (i ∷ [])) ++ (before ++ behind)) s.received
  call-accounted s i before behind h holds =
      rw (append_assoc s.called (i ∷ []) (before ++ behind)) (
        Perm.trans (Perm.append_left s.called (Perm.symm (perm_middle before behind)))
          (rw holds at h.accounted))

  call-IsOrdered :
      (s : Pool) (i : ℕ) (before behind : List ℕ)
      → IsOrdered target workers s
      → s.held ≡ before ++ (i ∷ behind)
      → IsOrdered target workers (record s {
        held = before ++ behind;
        running = i ∷ s.running;
        called = s.called ++ (i ∷ []);
      })
  call-IsOrdered s i before behind h holds = record {
    in_order = h.in_order;
    accounted = call-accounted s i before behind h holds;
    bounded = h.bounded;
    room = h.room;
    crew =
        let counted = ap length holds in
        omega
          (arith, h.crew, counted, length-append before (i ∷ behind), length-append before behind);
    complete = h.complete;
    closed = h.closed;
  }

  return-IsOrdered :
      (s : Pool) (i : ℕ) (before behind : List ℕ)
      → IsOrdered target workers s
      → s.running ≡ before ++ (i ∷ behind)
      → IsOrdered target workers (record s { running = before ++ behind; idle = suc s.idle })
  return-IsOrdered s i before behind h running = record {
    in_order = h.in_order;
    accounted = h.accounted;
    bounded = h.bounded;
    room = h.room;
    crew =
        let counted = ap length running in
        omega
          (arith, h.crew, counted, length-append before (i ∷ behind), length-append before behind);
    complete = h.complete;
    closed = h.closed;
  }

  Step-IsOrdered :
      {s u : Pool} → IsOrdered target workers s → Step target s u → IsOrdered target workers u
  Step-IsOrdered {s} h (cancel e f) = subst (IsOrdered target workers) (sym f) (record {
    in_order = h.in_order;
    accounted = h.accounted;
    bounded = h.bounded;
    room = h.room;
    crew = h.crew;
    complete = λ stopped going_on. absurd (cc going_on);
    closed = h.closed;
  })
  Step-IsOrdered {s} h (send producing below room f) =
      subst (IsOrdered target workers) (sym f) (send-IsOrdered s h producing below room)
  Step-IsOrdered {s} h (give_up producing done f) =
      subst (IsOrdered target workers) (sym f) (record {
        in_order = h.in_order;
        accounted = h.accounted;
        bounded = h.bounded;
        room = h.room;
        crew = h.crew;
        complete = λ stopped going_on. absurd (cc (sym done ∙ going_on));
        closed = λ k e. (refl, (h.closed k e).1);
      })
  Step-IsOrdered {s} h (close producing all f) = subst (IsOrdered target workers) (sym f) (record {
    in_order = h.in_order;
    accounted = h.accounted;
    bounded = h.bounded;
    room = h.room;
    crew = h.crew;
    complete = λ stopped going_on. all;
    closed = λ k e. (refl, (h.closed k e).1);
  })
  Step-IsOrdered {s} h (take i k rest idle queued f) =
      subst (IsOrdered target workers) (sym f) (take-IsOrdered s i k rest h idle queued)
  Step-IsOrdered {s} h (call i before behind holds f) =
      subst (IsOrdered target workers) (sym f) (call-IsOrdered s i before behind h holds)
  Step-IsOrdered {s} h (return i before behind running f) =
      subst (IsOrdered target workers) (sym f) (return-IsOrdered s i before behind h running)
  Step-IsOrdered {s} h (leave k stopped empty idle f) =
      subst (IsOrdered target workers) (sym f) (record {
        in_order = h.in_order;
        accounted = h.accounted;
        bounded = h.bounded;
        room = h.room;
        crew = omega (arith, h.crew, idle);
        complete = h.complete;
        closed = λ k e. (stopped, empty);
      })

  -- Whatever the scheduler, the pace and the time cap do, after any steps of runOps: the numbers that
  -- the workers received from the channel, followed by those on it, are 0, 1 and so on, in order, none
  -- twice, none left out, all below the target; every number that was received has been given to op
  -- in one call, in whatever order, or is held by one worker that is about to; the channel holds 1024
  -- at most; every worker waits, holds one number, runs one call or has returned; the producer stops
  -- early only where the context is done; and a worker returns only behind the last number.
  pub Reach-IsOrdered : (s : Pool) → Reach target workers s → IsOrdered target workers s
  Reach-IsOrdered s start = begin-IsOrdered
  Reach-IsOrdered s (later r step) = Step-IsOrdered (Reach-IsOrdered _ r) step
