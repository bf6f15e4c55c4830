-- ===== src/Tests/GroupTests.antt =====
-- One goroutine that issues a certificate, under a group that admits one goroutine for a hostname.
use hallmaster_proxy.Base.{ℕ, ◌≤◌, ◌∷◌, some, ok, ◌≡◌, ◌≢◌, refl, arith, All}
use hallmaster_proxy.Text.{Bytes, codes}
use hallmaster_proxy.Net.{split_host_port}
use hallmaster_proxy.Certs.{create_certificate, server_name_from_host, is_expiring_soon}
use hallmaster_proxy.Certs.Cache.{stored, fresh}
use hallmaster_proxy.Certs.Group.{
  outside, looking, creating, key_of, System, at, counted, initial, Admits, enter, missed, made,
  Reach, begin, later,
}
use hallmaster_proxy.Certs.Group.Invariant.{IsRight}
use hallmaster_proxy.Certs.Group.Safe.{Reach-issued}
use hallmaster_proxy.Tests.CertsTests.{test_signer, test_draw, discord_certificate}

abbrev one_at_a_time : Admits
one_at_a_time stage hostname = (t : ℕ) → key_of (stage t) ≢ some hostname

abbrev host : Bytes
host = codes "discord.com:443"

abbrev entered : System
entered = record initial { stage = at initial.stage 0 (looking host) }

abbrev to_create : System
to_create = record entered { stage = at entered.stage 0 (creating host) }

abbrev done : System
done = record {
  cache = stored to_create.cache host discord_certificate;
  stage = at to_create.stage 0 outside;
  handed = (host, ok discord_certificate) ∷ to_create.handed;
  issued = counted to_create.issued host;
}

created : create_certificate test_signer 10002 host test_draw ≡ ok discord_certificate
unfolding create_certificate server_name_from_host split_host_port
created = refl

done-reached : Reach one_at_a_time test_signer 10000 done
unfolding fresh is_expiring_soon
done-reached =
    later {s = to_create} 10002
      (later {s = entered} 10001
        (later {s = initial} 10000 begin (omega arith) (omega arith)
          (enter 0 host (λ t. cc) refl refl))
        (omega arith) (omega arith) (missed 0 host refl refl refl))
      (omega arith) (omega arith) (made 0 host discord_certificate test_draw refl created refl)

Reach-issued_example : (done.issued host ≤ 1) × All IsRight done.handed
Reach-issued_example =
    Reach-issued {admits = one_at_a_time} done host (λ stage hostname admitted. admitted)
      done-reached
