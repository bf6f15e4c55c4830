-- ===== src/Net/Split.antt =====
-- Addresses that net.SplitHostPort accepts or refuses, and its inverse.
use hallmaster_proxy.Base.{
  ℕ, suc, ◌+◌, ◌-◌, false, ◌||◌, [], ◌∷◌, ◌++◌, none, some, ok, err, ◌≡◌, inl, inr, refl, arith,
  ◌==◌, length, drop, length-append, take_prefix, Bool-cases, ==_refl,
}
use native.Mathlib.Numerals.{add-one}
use hallmaster_proxy.Text.{Bytes, index_byte, last_index_byte}
use hallmaster_proxy.Net.{missing_port, has_byte, starts_with_byte, split_host_port, join_host_port}

pub has_byte-append : (a b : Bytes) (c : ℕ) → has_byte (a ++ b) c ≡ (has_byte a c || has_byte b c)
unfolding has_byte
has_byte-append [] b c = refl
has_byte-append (x ∷ a) b c = ground (arith, has_byte-append a b c)

pub last_index_none : (s : Bytes) (c : ℕ) → has_byte s c ≡ false → last_index_byte s c ≡ none
unfolding has_byte last_index_byte
last_index_none [] c h = refl
last_index_none (x ∷ s) c h = ground (arith, last_index_none s c)

last_index_last :
    (a b : Bytes) (c : ℕ)
    → has_byte b c ≡ false
    → last_index_byte (a ++ (c ∷ b)) c ≡ some (length a)
unfolding last_index_byte
last_index_last [] b c h = ground (arith, last_index_none b c h)
last_index_last (x ∷ a) b c h = rw (last_index_last a b c h)

index_first :
    (a b : Bytes) (c : ℕ) → has_byte a c ≡ false → index_byte (a ++ (c ∷ b)) c ≡ some (length a)
unfolding index_byte has_byte
index_first [] b c h = ground arith
index_first (x ∷ a) b c h = ground (arith, index_first a b c)

-- The name holds no byte that SplitHostPort treats apart.
pub record IsPlain (s : Bytes) : Type 0 where
  pub no_colon : has_byte s b':' ≡ false
  pub no_open : has_byte s b'[' ≡ false
  pub no_close : has_byte s b']' ≡ false

pub split_no_colon : (s : Bytes) → has_byte s b':' ≡ false → split_host_port s ≡ err missing_port
unfolding split_host_port
split_no_colon s h = rw (last_index_none s b':' h, split_host_port)

drop_past : (a b : Bytes) (c : ℕ) → drop (suc (length a)) (a ++ (c ∷ b)) ≡ b
drop_past [] b c = refl
drop_past (x ∷ a) b c = drop_past a b c

pub drop_after : (a b : Bytes) (c : ℕ) → drop (length a + 1) (a ++ (c ∷ b)) ≡ b
drop_after a b c = rw add-one (drop_past a b c)

starts_with_append :
    (a b : Bytes) (c d : ℕ)
    → has_byte a d ≡ false
    → (c == d) ≡ false
    → starts_with_byte (a ++ (c ∷ b)) d ≡ false
unfolding has_byte
starts_with_append [] b c d h e = e
starts_with_append (x ∷ a) b c d h e = ground arith

pub split_plain_lem :
    (host port : Bytes)
    → IsPlain host
    → IsPlain port
    → split_host_port (host ++ (b':' ∷ port)) ≡ ok (host, port)
unfolding split_host_port
split_plain_lem host port h p =
    rw
      (
        last_index_last host port b':' p.no_colon,
        starts_with_append host port b':' b'[' h.no_open refl,
        take_prefix host (b':' ∷ port),
        h.no_colon,
        has_byte-append host (b':' ∷ port) b'[',
        has_byte-append host (b':' ∷ port) b']',
        h.no_open,
        h.no_close,
        p.no_open,
        p.no_close,
        drop_after host port b':',
      )
      refl

last_index_bracket :
    (a b : Bytes)
    → has_byte b b':' ≡ false
    → last_index_byte (a ++ (b']' ∷ b':' ∷ b)) b':' ≡ some (suc (length a))
unfolding last_index_byte
last_index_bracket [] b h = rw (last_index_none b b':' h)
last_index_bracket (x ∷ a) b h = rw (last_index_bracket a b h)

not_last : (n m : ℕ) → (suc (suc n) == suc (n + suc (suc m))) ≡ false
not_last n m = ground arith

suc-sub-one : (n : ℕ) → suc n - 1 ≡ n
suc-sub-one n = omega arith

drop_third : (a b : Bytes) → drop (suc (suc (length a))) (a ++ (b']' ∷ b':' ∷ b)) ≡ b
drop_third [] b = refl
drop_third (x ∷ a) b = drop_third a b

-- Inside brackets the host may hold colons.
pub split_bracketed :
    (host port : Bytes)
    → has_byte host b'[' ≡ false
    → has_byte host b']' ≡ false
    → IsPlain port
    → split_host_port (b'[' ∷ (host ++ (b']' ∷ b':' ∷ port))) ≡ ok (host, port)
unfolding split_host_port
split_bracketed host port no_open no_close p =
    rw
      (
        last_index_bracket host port p.no_colon,
        index_first host (b':' ∷ port) b']' no_close,
        add-one,
        length-append host (b']' ∷ b':' ∷ port),
        not_last (length host) (length port),
        ==_refl,
        has_byte-append host (b']' ∷ b':' ∷ port) b'[',
        drop_past host (b':' ∷ port) b']',
        no_open,
        p.no_open,
        p.no_close,
        suc-sub-one (length host),
        take_prefix,
        add-one,
        drop_third host port,
      )
      refl

-- Splitting undoes joining.
pub split-join :
    (host port : Bytes)
    → has_byte host b'[' ≡ false
    → has_byte host b']' ≡ false
    → IsPlain port
    → split_host_port (join_host_port host port) ≡ ok (host, port)
unfolding join_host_port
split-join host port no_open no_close p = elim (Bool-cases (has_byte host b':')) [
  | inl colon ↦ rw colon (split_bracketed host port no_open no_close p)
  | inr plain ↦ rw plain (
      split_plain_lem host port
        (record { no_colon = plain; no_open = no_open; no_close = no_close }) p)
]
