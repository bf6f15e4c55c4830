-- ===== src/Net/Port.antt =====
-- The port that net.SplitHostPort returns.
use native.Mathlib.Numerals.{add-one}
use hallmaster_proxy.Base.{
  ℕ, zero, suc, ◌+◌, ◌-◌, ◌≤◌, false, [], ◌∷◌, Option, none, some, ok, ◌≡◌, inl, inr, refl, arith,
  ◌==◌, take, drop, Bool-cases, Option-cases, ==_iff,
}
use hallmaster_proxy.Text.{Bytes, index_byte, last_index_byte}
use hallmaster_proxy.Net.{
  has_byte, starts_with_byte, split_rest, split_closed, split_plain, split_at, split_host_port,
}
use hallmaster_proxy.Net.Split.{IsPlain}

no_byte-last_index : (s : Bytes) (c : ℕ) → last_index_byte s c ≡ none → has_byte s c ≡ false
unfolding last_index_byte has_byte
no_byte-last_index [] c h = refl
no_byte-last_index (x ∷ s) c h = ground (arith, no_byte-last_index s c)

no_byte_behind :
    (s : Bytes) (c : ℕ) {i : ℕ} → last_index_byte s c ≡ some i → has_byte (drop (suc i) s) c ≡ false
unfolding last_index_byte
no_byte_behind [] c h = cc
no_byte_behind (x ∷ s) c {i} h = elim (Option-cases (last_index_byte s c)) [
  | inl e ↦ ground (arith, no_byte-last_index s c e)
  | inr (j, e) ↦ let k : i ≡ suc j = ground arith in rw k (no_byte_behind s c e)
]

has_byte-drop :
    (n m : ℕ) (s : Bytes) (c : ℕ)
    → n ≤ m
    → has_byte (drop n s) c ≡ false
    → has_byte (drop m s) c ≡ false
unfolding has_byte
has_byte-drop n zero s c le h = let e : n ≡ 0 = omega arith in rw e at h
has_byte-drop zero (suc m) [] c le h = refl
has_byte-drop zero (suc m) (x ∷ s) c le h = has_byte-drop zero m s c (omega arith) (ground arith)
has_byte-drop (suc n) (suc m) [] c le h = refl
has_byte-drop (suc n) (suc m) (x ∷ s) c le h = has_byte-drop n m s c (omega arith) h

split_rest-IsPlain :
    (address : Bytes) (i j k : ℕ) (name : Bytes) {host port : Bytes}
    → last_index_byte address b':' ≡ some i
    → j ≤ i + 1
    → k ≤ i + 1
    → split_rest address i j k name ≡ ok (host, port)
    → IsPlain port
unfolding split_rest
split_rest-IsPlain address i j k name {host} {port} last le_j le_k h =
    elim (Bool-cases (has_byte (drop j address) b'[')) [
      | inl opened ↦ ground arith
      | inr no_open ↦ elim (Bool-cases (has_byte (drop k address) b']')) [
        | inl closed ↦ ground arith
        | inr no_close ↦
            let e : drop (i + 1) address ≡ port = ground arith in
            rw (← e) (record {
              no_colon = rw add-one (no_byte_behind address b':' last);
              no_open = has_byte-drop j (i + 1) address b'[' le_j no_open;
              no_close = has_byte-drop k (i + 1) address b']' le_k no_close;
            })
      ]
    ]

split_closed-IsPlain :
    (address : Bytes) (i : ℕ) (end : Option ℕ) {host port : Bytes}
    → last_index_byte address b':' ≡ some i
    → split_closed address i end ≡ ok (host, port)
    → IsPlain port
unfolding split_closed
split_closed-IsPlain address i none last h = cc
split_closed-IsPlain address i (some end) {host} last h = elim (Bool-cases (end + 1 == i)) [
  | inl here ↦
      split_rest-IsPlain address i 1 (end + 1) (take (end - 1) (drop 1 address)) {host = host} last
        (omega arith) (omega (arith, (==_iff (end + 1) i).0 here)) (ground arith)
  | inr elsewhere ↦ ground arith
]

split_at-IsPlain :
    (address : Bytes) (last : Option ℕ) {host port : Bytes}
    → last_index_byte address b':' ≡ last
    → split_at address last ≡ ok (host, port)
    → IsPlain port
unfolding split_at split_plain
split_at-IsPlain address none last h = cc
split_at-IsPlain address (some i) {host} last h =
    elim (Bool-cases (starts_with_byte address b'[')) [
      | inl bracket ↦
          split_closed-IsPlain address i (index_byte address b']') {host = host} last (ground arith)
      | inr plain ↦
          split_rest-IsPlain address i 0 0 (take i address) {host = host} last (omega arith)
            (omega arith) (ground arith)
    ]

-- Whatever address is accepted, its port has no colon and no bracket.
pub split-IsPlain :
    (address : Bytes) {host port : Bytes} → split_host_port address ≡ ok (host, port) → IsPlain port
unfolding split_host_port
split-IsPlain address h = split_at-IsPlain address (last_index_byte address b':') refl h
