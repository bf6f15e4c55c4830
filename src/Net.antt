-- ===== src/Net.antt =====
-- The functions of package net on addresses that the proxy calls: net.SplitHostPort and
-- net.JoinHostPort.
pub mod Split
pub mod Port
use hallmaster_proxy.Base.{
  ℕ, ◌+◌, ◌-◌, Bool, true, false, ◌||◌, List, [], ◌∷◌, ◌++◌, Option, none, some, Result, ok, err,
  ◌==◌, if◌then◌else◌, length, take, drop,
}
use hallmaster_proxy.Text.{Bytes, index_byte, last_index_byte}

pub data AddrError : Type 0 where
  missing_port too_many_colons missing_bracket unexpected_open unexpected_close : AddrError

-- IndexByteString(s, c) >= 0
unfoldable pub has_byte : Bytes → ℕ → Bool
has_byte [] c = false
has_byte (x ∷ s) c = x == c || has_byte s c

abbrev pub starts_with_byte : Bytes → ℕ → Bool
starts_with_byte [] c = false
starts_with_byte (x ∷ s) c = x == c

-- The checks behind the choice of the host: no '[' from `j` on and no ']' from `k` on.
split_rest : Bytes → ℕ → ℕ → ℕ → Bytes → Result AddrError (Bytes × Bytes)
split_rest address i j k host =
    if has_byte (drop j address) b'['
    then err unexpected_open
    else if has_byte (drop k address) b']'
    then err unexpected_close
    else ok (host, drop (i + 1) address)

-- The first byte is '[', and `end` the place of the first ']'.
split_closed : Bytes → ℕ → Option ℕ → Result AddrError (Bytes × Bytes)
split_closed address i none = err missing_bracket
split_closed address i (some end) =
    if end + 1 == length address
    then err missing_port
    else if end + 1 == i
    then split_rest address i 1 (end + 1) (take (end - 1) (drop 1 address))
    else if starts_with_byte (drop (end + 1) address) b':'
    then err too_many_colons
    else err missing_port

split_plain : Bytes → ℕ → Result AddrError (Bytes × Bytes)
split_plain address i =
    if has_byte (take i address) b':'
    then err too_many_colons
    else split_rest address i 0 0 (take i address)

-- Split at the last colon.
split_at : Bytes → Option ℕ → Result AddrError (Bytes × Bytes)
split_at address none = err missing_port
split_at address (some i) =
    if starts_with_byte address b'['
    then split_closed address i (index_byte address b']')
    else split_plain address i

-- net.SplitHostPort
unfoldable pub split_host_port : Bytes → Result AddrError (Bytes × Bytes)
unfolding split_rest split_closed split_plain split_at has_byte index_byte last_index_byte
split_host_port address = split_at address (last_index_byte address b':')

-- net.JoinHostPort
unfoldable pub join_host_port : Bytes → Bytes → Bytes
unfolding has_byte
join_host_port host port =
    if has_byte host b':' then b'[' ∷ (host ++ (b']' ∷ b':' ∷ port)) else host ++ (b':' ∷ port)
