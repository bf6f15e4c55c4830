-- ===== src/Bufio.antt =====
-- bufio.Reader over a connection, as mitm.go and https.go use it: what it holds back in its buffer,
-- and what is still to be read from the connection, in the pieces in which it arrives.
pub mod Stream
use hallmaster_proxy.Base.{
  ℕ, zero, suc, ◌-◌, Bool, true, false, List, [], ◌∷◌, ◌++◌, Option, none, some, leb, if◌then◌else◌,
  length, take, drop,
}
use hallmaster_proxy.Text.{Bytes}

-- bufio's default size
abbrev pub buffer_size : ℕ
buffer_size = 4096

abbrev pub Conn : Type 0
Conn = List Bytes

pub record Reader : Type 0 where
  pub buffered : Bytes
  pub conn : Conn

abbrev pub new_reader : Conn → Reader
new_reader conn = record { buffered = []; conn = conn }

-- All that is still to come from a connection, and through a reader.
abbrev pub arriving : Conn → Bytes
arriving [] = []
arriving (piece ∷ conn) = piece ++ arriving conn

abbrev pub stream : Reader → Bytes
stream r = r.buffered ++ arriving r.conn

-- conn.Read into `k` bytes
pub read_conn : ℕ → Conn → Bytes × Conn
read_conn k [] = ([], [])
read_conn k (piece ∷ conn) =
    if leb (length piece) k then (piece, conn) else (take k piece, drop k piece ∷ conn)

filled : Bytes × Conn → Reader
filled (got, conn) = record { buffered = got; conn = conn }

-- The buffer is empty: the connection is read until there is something. Peek(1) does this.
pub fill : Conn → Reader
unfolding filled read_conn
fill [] = new_reader []
fill ([] ∷ conn) = fill conn
fill ((b ∷ piece) ∷ conn) = filled (read_conn buffer_size ((b ∷ piece) ∷ conn))

pub peeked : Bytes → Conn → Reader
unfolding fill
peeked [] conn = fill conn
peeked (b ∷ buffered) conn = record { buffered = b ∷ buffered; conn = conn }

-- Peek(1): the reader that it leaves.
unfoldable pub peek : Reader → Reader
unfolding peeked
peek r = peeked r.buffered r.conn

pub pop : Bytes → Conn → Reader
pop [] conn = new_reader conn
pop (b ∷ buffered) conn = record { buffered = buffered; conn = conn }

-- What is left when `n` bytes have been consumed, each through the buffer.
unfoldable pub consume : ℕ → Reader → Reader
unfolding peek pop
consume zero r = r
consume (suc n) r = consume n (pop (peek r).buffered (peek r).conn)

direct : ℕ → Bytes × Conn → Bytes × Reader
direct k (got, conn) = (got, new_reader conn)

copied : ℕ → Reader → Bytes × Reader
copied k r = (take k r.buffered, record r { buffered = drop k r.buffered })

read_from : ℕ → Bytes → Conn → Bytes × Reader
unfolding direct copied filled read_conn
read_from k (b ∷ buffered) conn = copied k (record { buffered = b ∷ buffered; conn = conn })
read_from k [] conn =
    if leb buffer_size k
    then direct k (read_conn k conn)
    else copied k (filled (read_conn buffer_size conn))

-- Read into `k` bytes: from the buffer, or by one read of the connection.
unfoldable pub read : ℕ → Reader → Bytes × Reader
unfolding read_from
read k r = read_from k r.buffered r.conn

-- Reads of these sizes, and what they got together.
unfoldable pub reads : List ℕ → Reader → Bytes × Reader
unfolding read
reads [] r = ([], r)
reads (k ∷ sizes) r =
    let (got, r') = read k r in let (more, last) = reads sizes r' in (got ++ more, last)

-- The same on the connection itself.
unfoldable pub conn_reads : List ℕ → Conn → Bytes × Conn
unfolding read_conn
conn_reads [] conn = ([], conn)
conn_reads (k ∷ sizes) conn =
    let (got, conn') = read_conn k conn in
    let (more, last) = conn_reads sizes conn' in (got ++ more, last)
