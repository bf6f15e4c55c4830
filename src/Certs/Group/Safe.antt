-- ===== src/Certs/Group/Safe.antt =====
-- What holds however the calls of GetOrCreateCert interleave.
use hallmaster_proxy.Base.{ℕ, ◌+◌, ◌≤◌, ok, err, sym, subst, arith, All}
use hallmaster_proxy.Text.{Bytes}
use hallmaster_proxy.Certs.{Signer, leaf_cert_renew_before, leaf_cert_validity}
use hallmaster_proxy.Certs.Cache.Sound.{create-IsNew}
use hallmaster_proxy.Certs.Group.{
  looking, creating, System, Admits, Step, hit, enter, found, missed, refused, made, Reach, begin,
  later,
}
use hallmaster_proxy.Certs.Group.Invariant.{
  IsExclusive, IsRight, IsSafe, initial-IsSafe, settled-le, fresh-IsRight, moved_unique,
  entered_unique, moved-before, missed-early, leave-IsSafe, made-IsSafe,
}

module _ {admits : Admits} {signer : Signer} {start : ℕ} where
  Step-IsSafe :
      {now : ℕ} (s u : System)
      → IsExclusive admits
      → start ≤ now
      → now + leaf_cert_renew_before ≤ start + leaf_cert_validity
      → IsSafe start s
      → Step admits signer now s u
      → IsSafe start u
  Step-IsSafe {now} s u exclusive le within inv (hit hostname c h e) =
      subst (IsSafe start) (sym e) (record {
        unique = inv.unique;
        before = inv.before;
        settled = inv.settled;
        sound = inv.sound;
        right = (fresh-IsRight s inv now hostname h, inv.right);
      })
  Step-IsSafe s u exclusive le within inv (enter t hostname admitted out e) =
      let alone = exclusive s.stage hostname admitted in
      subst (IsSafe start) (sym e) (record {
        unique = entered_unique s inv t hostname alone;
        before = moved-before s inv t (looking hostname) (λ key p. cc);
        settled = inv.settled;
        sound = inv.sound;
        right = inv.right;
      })
  Step-IsSafe {now} s u exclusive le within inv (found t hostname c here h e) =
      subst (IsSafe start) (sym e)
        (leave-IsSafe s inv t (hostname, ok c) (fresh-IsRight s inv now hostname h))
  Step-IsSafe {now} s u exclusive le within inv (missed t hostname here h e) =
      subst (IsSafe start) (sym e) (record {
        unique = moved_unique s inv t (creating hostname) (λ key p. ground arith);
        before =
            moved-before s inv t (creating hostname)
              (λ key p. ground (arith, missed-early s inv now hostname within h));
        settled = inv.settled;
        sound = inv.sound;
        right = inv.right;
      })
  Step-IsSafe s u exclusive le within inv (refused t hostname x draw here h e) =
      subst (IsSafe start) (sym e) (leave-IsSafe s inv t (hostname, err x) (λ c p. cc))
  Step-IsSafe {now} s u exclusive le within inv (made t hostname c draw here h e) =
      subst (IsSafe start) (sym e)
        (made-IsSafe s inv now t hostname c le here (create-IsNew signer now hostname draw h))

  Reach-IsSafe : (s : System) → IsExclusive admits → Reach admits signer start s → IsSafe start s
  Reach-IsSafe s exclusive begin = initial-IsSafe start
  Reach-IsSafe s exclusive (later {s = before} now r le within step) =
      Step-IsSafe before s exclusive le within (Reach-IsSafe before exclusive r) step

  -- However the calls of many goroutines interleave, if singleflight runs one function at a time for
  -- a hostname: in six days from an empty cache, at most one certificate is issued for each
  -- hostname, and every certificate that a caller gets is for the hostname it asked for.
  pub Reach-issued :
      (s : System) (hostname : Bytes)
      → IsExclusive admits
      → Reach admits signer start s
      → (s.issued hostname ≤ 1) × All IsRight s.handed
  Reach-issued s hostname exclusive r =
      let safe = Reach-IsSafe s exclusive r in
      (settled-le start (s.issued hostname) (s.cache hostname) (safe.settled hostname), safe.right)
