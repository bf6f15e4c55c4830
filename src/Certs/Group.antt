-- ===== src/Certs/Group.antt =====
-- GetOrCreateCert called by many goroutines, proxy/internals/certs/certs.go: every access to the
-- cache is a step, and the steps interleave in any order. When singleflight lets a goroutine run the
-- function for a hostname is a parameter.
pub mod Invariant
pub mod Safe
use hallmaster_proxy.Base.{
  ℕ, suc, ◌+◌, ◌≤◌, List, [], ◌∷◌, Option, none, some, Result, ok, err, ◌≡◌, ◌==◌, if◌then◌else◌,
}
use hallmaster_proxy.Text.{Bytes, equal}
use hallmaster_proxy.Certs.{
  Certificate, Signer, Draw, create_certificate, leaf_cert_renew_before, leaf_cert_validity,
}
use hallmaster_proxy.Certs.Cache.{Cache, fresh, stored}

-- Where a goroutine stands in the function that group.Do runs: not in it, before its look at the
-- cache, or before createCertificate.
pub data Stage : Type 0 where
  outside : Stage
  looking : Bytes → Stage
  creating : Bytes → Stage

abbrev pub key_of : Stage → Option Bytes
key_of outside = none
key_of (looking hostname) = some hostname
key_of (creating hostname) = some hostname

-- `handed` lists what callers got, each result once for all that waited for it, the last first;
-- `issued` counts the certificates that were stored for a hostname.
pub record System : Type 0 where
  pub cache : Cache
  pub stage : ℕ → Stage
  pub handed : List (Bytes × Result Bytes Certificate)
  pub issued : Bytes → ℕ

abbrev pub at : (ℕ → Stage) → ℕ → Stage → ℕ → Stage
at stage t new u = if u == t then new else stage u

abbrev pub counted : (Bytes → ℕ) → Bytes → Bytes → ℕ
counted issued hostname key = if equal key hostname then suc (issued key) else issued key

abbrev pub initial : System
initial = record {
  cache = λ hostname. none;
  stage = λ t. outside;
  handed = [];
  issued = λ hostname. 0;
}

-- When group.Do starts the function for a hostname.
abbrev pub Admits : Type 1
Admits = (ℕ → Stage) → Bytes → Type 0

-- One step at time `now`.
pub data Step (admits : Admits) (signer : Signer) (now : ℕ) (s u : System) : Type 0 where
  -- the first look at the cache, by a caller that finds what it wants
  hit :
      (hostname : Bytes) (c : Certificate)
      → fresh now (s.cache hostname) ≡ some c
      → u ≡ record s { handed = (hostname, ok c) ∷ s.handed }
      → Step admits signer now s u
  enter :
      (t : ℕ) (hostname : Bytes)
      → admits s.stage hostname
      → s.stage t ≡ outside
      → u ≡ record s { stage = at s.stage t (looking hostname) }
      → Step admits signer now s u
  -- the second look
  found :
      (t : ℕ) (hostname : Bytes) (c : Certificate)
      → s.stage t ≡ looking hostname
      → fresh now (s.cache hostname) ≡ some c
      → u ≡ record s { stage = at s.stage t outside; handed = (hostname, ok c) ∷ s.handed }
      → Step admits signer now s u
  missed :
      (t : ℕ) (hostname : Bytes)
      → s.stage t ≡ looking hostname
      → fresh now (s.cache hostname) ≡ none
      → u ≡ record s { stage = at s.stage t (creating hostname) }
      → Step admits signer now s u
  refused :
      (t : ℕ) (hostname e : Bytes) (draw : Draw)
      → s.stage t ≡ creating hostname
      → create_certificate signer now hostname draw ≡ err e
      → u ≡ record s { stage = at s.stage t outside; handed = (hostname, err e) ∷ s.handed }
      → Step admits signer now s u
  made :
      (t : ℕ) (hostname : Bytes) (c : Certificate) (draw : Draw)
      → s.stage t ≡ creating hostname
      → create_certificate signer now hostname draw ≡ ok c
      → u ≡ record {
        cache = stored s.cache hostname c;
        stage = at s.stage t outside;
        handed = (hostname, ok c) ∷ s.handed;
        issued = counted s.issued hostname;
      }
      → Step admits signer now s u

-- What can come about from an empty cache between `start` and six days later.
pub data Reach (admits : Admits) (signer : Signer) (start : ℕ) : System → Type 0 where
  begin : Reach admits signer start initial
  later :
      {s u : System} (now : ℕ)
      → Reach admits signer start s
      → start ≤ now
      → now + leaf_cert_renew_before ≤ start + leaf_cert_validity
      → Step admits signer now s u
      → Reach admits signer start u
