-- ===== src/Certs/Group/Invariant.antt =====
-- What every step of GetOrCreateCert keeps, and the moves between its stages.
use hallmaster_proxy.Base.{
  ℕ, ◌+◌, ◌≤◌, ◌∷◌, Option, none, some, Result, ok, ◌≡◌, ◌≢◌, ◌⊎◌, inl, inr, refl, ◌∙◌, ap, subst,
  arith, All, Bool-cases, ok-injective,
}
use hallmaster_proxy.Text.{Bytes, equal}
use hallmaster_proxy.Text.Affix.{equal_iff}
use hallmaster_proxy.Certs.{Certificate, Leaf, leaf_cert_renew_before, leaf_cert_validity}
use hallmaster_proxy.Certs.Cache.{fresh, stored}
use hallmaster_proxy.Certs.Cache.Sound.{
  IsFor, IsSound, IsNew, fresh-some, fresh-none, stored-IsSound,
}
use hallmaster_proxy.Certs.Group.{
  Stage, outside, looking, creating, key_of, System, at, counted, initial, Admits,
}

-- Documented of singleflight: one execution at a time for a key.
abbrev pub IsExclusive : Admits → Type 0
IsExclusive admits =
    (stage : ℕ → Stage) (hostname : Bytes)
    → admits stage hostname
    → (t : ℕ) → key_of (stage t) ≢ some hostname

-- What a caller got is for its hostname.
abbrev pub IsRight : Bytes × Result Bytes Certificate → Type 0
IsRight (hostname, r) = (c : Certificate) → r ≡ ok c → IsFor hostname c

-- Nothing is issued yet, or one certificate, which is cached and lasts longer than the window.
abbrev pub IsSettled : ℕ → ℕ → Option Certificate → Type 0
IsSettled start n o =
    (n ≡ 0)
    ⊎ ((n ≡ 1)
        × (c : Certificate) × (l : Leaf) × (o ≡ some c)
        × (c.leaf ≡ some l)
        × (start + leaf_cert_validity ≤ l.not_after))

pub record IsSafe (start : ℕ) (s : System) : Type 0 where
  pub unique :
      (t u : ℕ) (hostname : Bytes)
      → key_of (s.stage t) ≡ some hostname
      → key_of (s.stage u) ≡ some hostname
      → t ≡ u
  pub before : (t : ℕ) (hostname : Bytes) → s.stage t ≡ creating hostname → s.issued hostname ≡ 0
  pub settled : (hostname : Bytes) → IsSettled start (s.issued hostname) (s.cache hostname)
  pub sound : IsSound s.cache
  pub right : All IsRight s.handed

pub initial-IsSafe : (start : ℕ) → IsSafe start initial
initial-IsSafe start = record {
  unique = λ t u hostname p q. cc;
  before = λ t hostname p. refl;
  settled = λ hostname. inl refl;
  sound = λ hostname c p. cc;
  right = tt;
}

pub settled-le : (start n : ℕ) (o : Option Certificate) → IsSettled start n o → n ≤ 1
settled-le start n o (inl zero_issued) = omega arith
settled-le start n o (inr issued) = omega (arith, issued.0)

module _ {start : ℕ} (s : System) (inv : IsSafe start s) where
  pub fresh-IsRight :
      (now : ℕ) (hostname : Bytes) {c : Certificate}
      → fresh now (s.cache hostname) ≡ some c
      → IsRight (hostname, ok c)
  fresh-IsRight now hostname h d e =
      inv.sound hostname d ((fresh-some now (s.cache hostname) h).0 ∙ ap some (ok-injective e))

  -- A goroutine that moves within its call, or out of it.
  keeps-key :
      (t : ℕ) (next : Stage)
      → ((key : Bytes) → key_of next ≡ some key → key_of (s.stage t) ≡ some key)
      → (u : ℕ) (key : Bytes) → key_of (at s.stage t next u) ≡ some key
      → key_of (s.stage u) ≡ some key
  keeps-key t next keeps u key p = ground (arith, keeps key)

  pub moved_unique :
      (t : ℕ) (next : Stage)
      → ((key : Bytes) → key_of next ≡ some key → key_of (s.stage t) ≡ some key)
      → (a b : ℕ) (key : Bytes) → key_of (at s.stage t next a) ≡ some key
      → key_of (at s.stage t next b) ≡ some key
      → a ≡ b
  moved_unique t next keeps a b key p q =
      inv.unique a b key (keeps-key t next keeps a key p) (keeps-key t next keeps b key q)

  pub entered_unique :
      (t : ℕ) (hostname : Bytes)
      → ((u : ℕ) → key_of (s.stage u) ≢ some hostname)
      → (a b : ℕ) (key : Bytes) → key_of (at s.stage t (looking hostname) a) ≡ some key
      → key_of (at s.stage t (looking hostname) b) ≡ some key
      → a ≡ b
  entered_unique t hostname alone a b key p q = ground (arith, alone a, alone b, inv.unique a b key)

  -- No certificate is issued by a step that creates none.
  pub moved-before :
      (t : ℕ) (next : Stage)
      → ((key : Bytes) → next ≡ creating key → s.issued key ≡ 0)
      → (u : ℕ) (key : Bytes) → at s.stage t next u ≡ creating key
      → s.issued key ≡ 0
  moved-before t next early u key p = ground (arith, early key, inv.before u key)

  -- A look that finds nothing fresh finds nothing that was issued in the window.
  pub missed-early :
      (now : ℕ) (hostname : Bytes)
      → now + leaf_cert_renew_before ≤ start + leaf_cert_validity
      → fresh now (s.cache hostname) ≡ none
      → s.issued hostname ≡ 0
  missed-early now hostname within none_fresh = elim (inv.settled hostname) [
    | inl zero_issued ↦ zero_issued
    | inr (one, c, l, cached, has_leaf, lasts) ↦
        absurd (omega (arith, fresh-none now (s.cache hostname) c l cached has_leaf none_fresh))
  ]

  made-IsSettled :
      (now : ℕ) (hostname : Bytes) (c : Certificate)
      → start ≤ now
      → s.issued hostname ≡ 0
      → IsNew now hostname c
      → (key : Bytes)
      → IsSettled start (counted s.issued hostname key) (stored s.cache hostname c key)
  unfolding stored
  made-IsSettled now hostname c le none_yet (l, has_leaf, is_leaf, until) key =
      elim (Bool-cases (equal key hostname)) [
        | inl same ↦
            let here = ap s.issued ((equal_iff key hostname).0 same) in
            rw same (inr (omega arith, c, l, refl, has_leaf, omega arith))
        | inr other ↦ rw other (inv.settled key)
      ]

  -- A goroutine that leaves, and what its callers got.
  pub leave-IsSafe :
      (t : ℕ) (handed : Bytes × Result Bytes Certificate)
      → IsRight handed
      → IsSafe start (record s { stage = at s.stage t outside; handed = handed ∷ s.handed })
  leave-IsSafe t handed is_right = record {
    unique = moved_unique t outside (λ key p. cc);
    before = moved-before t outside (λ key p. cc);
    settled = inv.settled;
    sound = inv.sound;
    right = (is_right, inv.right);
  }

  made-before :
      (t : ℕ) (hostname : Bytes)
      → s.stage t ≡ creating hostname
      → (u : ℕ) (key : Bytes) → at s.stage t outside u ≡ creating key
      → counted s.issued hostname key ≡ 0
  made-before t hostname here u key p =
      ground (arith, equal_iff key hostname, inv.unique u t hostname, inv.before u key)

  pub made-IsSafe :
      (now t : ℕ) (hostname : Bytes) (c : Certificate)
      → start ≤ now
      → s.stage t ≡ creating hostname
      → IsNew now hostname c
      → IsSafe start (record {
        cache = stored s.cache hostname c;
        stage = at s.stage t outside;
        handed = (hostname, ok c) ∷ s.handed;
        issued = counted s.issued hostname;
      })
  made-IsSafe now t hostname c le here (l, has_leaf, is_leaf, until) = record {
    unique = moved_unique t outside (λ key p. cc);
    before = made-before t hostname here;
    settled =
        made-IsSettled now hostname c le (inv.before t hostname here) (l, has_leaf, is_leaf, until);
    sound = stored-IsSound s.cache hostname c inv.sound (l, has_leaf, is_leaf);
    right = ((λ d e. subst (IsFor hostname) (ok-injective e) (l, has_leaf, is_leaf)), inv.right);
  }
