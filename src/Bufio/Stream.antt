-- ===== src/Bufio/Stream.antt =====
-- Nothing that arrives is lost or reordered in the buffer.
use hallmaster_proxy.Base.{
  ℕ, zero, suc, ◌≤◌, List, [], ◌∷◌, ◌++◌, leb, length, take, drop, take-append-drop, append_assoc,
  ◌≡◌, refl, ap, ◌∙◌, arith, inl, inr, Bool-cases, le→leb,
}
use hallmaster_proxy.Text.{Bytes}
use hallmaster_proxy.Bufio.{
  Conn, Reader, arriving, stream, buffer_size, read_conn, filled, fill, peeked, peek, pop, consume,
  direct, copied, read_from, read, reads, conn_reads, new_reader,
}

read_conn-arriving :
    (k : ℕ) (conn : Conn) → (read_conn k conn).0 ++ arriving (read_conn k conn).1 ≡ arriving conn
unfolding read_conn
read_conn-arriving k [] = refl
read_conn-arriving k (piece ∷ conn) = elim (Bool-cases (leb (length piece) k)) [
  | inl whole ↦ rw whole refl
  | inr part ↦
      rw
        (
          part,
          ← append_assoc (take k piece) (drop k piece) (arriving conn),
          take-append-drop k piece,
        )
        refl
]

fill-stream : (conn : Conn) → stream (fill conn) ≡ arriving conn
unfolding fill filled
fill-stream [] = refl
fill-stream ([] ∷ conn) = fill-stream conn
fill-stream ((b ∷ piece) ∷ conn) = read_conn-arriving buffer_size ((b ∷ piece) ∷ conn)

peeked-stream :
    (buffered : Bytes) (conn : Conn) → stream (peeked buffered conn) ≡ buffered ++ arriving conn
unfolding peeked
peeked-stream [] conn = fill-stream conn
peeked-stream (b ∷ buffered) conn = refl

pub peek-stream : (r : Reader) → stream (peek r) ≡ stream r
unfolding peek
peek-stream r = peeked-stream r.buffered r.conn

-- An empty buffer after a peek means that there is nothing more to come.
abbrev IsReady : Reader → Type 0
IsReady r = r.buffered ≡ [] → arriving r.conn ≡ []

fill-IsReady : (conn : Conn) → IsReady (fill conn)
unfolding fill filled read_conn
fill-IsReady [] h = refl
fill-IsReady ([] ∷ conn) h = fill-IsReady conn h
fill-IsReady ((b ∷ piece) ∷ conn) h = absurd (ground arith)

peeked-IsReady : (buffered : Bytes) (conn : Conn) → IsReady (peeked buffered conn)
unfolding peeked
peeked-IsReady [] conn h = fill-IsReady conn h
peeked-IsReady (b ∷ buffered) conn h = cc

peek-IsReady : (r : Reader) → IsReady (peek r)
unfolding peek
peek-IsReady r = peeked-IsReady r.buffered r.conn

pop-stream :
    (buffered : Bytes) (conn : Conn)
    → (buffered ≡ [] → arriving conn ≡ [])
    → stream (pop buffered conn) ≡ drop 1 (buffered ++ arriving conn)
unfolding pop
pop-stream [] conn ready = rw (ready refl) refl
pop-stream (b ∷ buffered) conn ready = refl

drop-drop : (n : ℕ) (l : Bytes) → drop n (drop 1 l) ≡ drop (suc n) l
drop-drop zero [] = refl
drop-drop (suc n) [] = refl
drop-drop n (b ∷ l) = refl

pub consume-stream : (n : ℕ) (r : Reader) → stream (consume n r) ≡ drop n (stream r)
unfolding consume
consume-stream zero r = refl
consume-stream (suc n) r =
    consume-stream n (pop (peek r).buffered (peek r).conn)
    ∙ ap (drop n)
        (pop-stream (peek r).buffered (peek r).conn (peek-IsReady r) ∙ ap (drop 1) (peek-stream r))
    ∙ drop-drop n (stream r)

copied-stream : (k : ℕ) (r : Reader) → (copied k r).0 ++ stream (copied k r).1 ≡ stream r
unfolding copied
copied-stream k r =
    rw
      (
        ← append_assoc (take k r.buffered) (drop k r.buffered) (arriving r.conn),
        take-append-drop k r.buffered,
      )
      refl

read_from-stream :
    (k : ℕ) (buffered : Bytes) (conn : Conn)
    → (read_from k buffered conn).0 ++ stream (read_from k buffered conn).1
      ≡ buffered ++ arriving conn
unfolding read_from direct filled
read_from-stream k (b ∷ buffered) conn =
    copied-stream k (record { buffered = b ∷ buffered; conn = conn })
read_from-stream k [] conn = elim (Bool-cases (leb buffer_size k)) [
  | inl large ↦ rw large (read_conn-arriving k conn)
  | inr small ↦
      rw small (
        copied-stream k (filled (read_conn buffer_size conn)) ∙ read_conn-arriving buffer_size conn)
]

pub reads-stream :
    (sizes : List ℕ) (r : Reader) → (reads sizes r).0 ++ stream (reads sizes r).1 ≡ stream r
unfolding reads read
reads-stream [] r = refl
reads-stream (k ∷ sizes) r =
    append_assoc (read k r).0 (reads sizes (read k r).1).0 (stream (reads sizes (read k r).1).1)
    ∙ ap (λ rest. (read k r).0 ++ rest) (reads-stream sizes (read k r).1)
    ∙ read_from-stream k r.buffered r.conn

pub conn_reads-arriving :
    (sizes : List ℕ) (conn : Conn)
    → (conn_reads sizes conn).0 ++ arriving (conn_reads sizes conn).1 ≡ arriving conn
unfolding conn_reads
conn_reads-arriving [] conn = refl
conn_reads-arriving (k ∷ sizes) conn =
    append_assoc (read_conn k conn).0 (conn_reads sizes (read_conn k conn).1).0
      (arriving (conn_reads sizes (read_conn k conn).1).1)
    ∙ ap (λ rest. (read_conn k conn).0 ++ rest) (conn_reads-arriving sizes (read_conn k conn).1)
    ∙ read_conn-arriving k conn

consume_buffered :
    (n : ℕ) (buffered : Bytes) (conn : Conn)
    → n ≤ length buffered
    → (consume n (record { buffered = buffered; conn = conn })).conn ≡ conn
unfolding consume peek peeked pop
consume_buffered zero buffered conn h = refl
consume_buffered (suc n) [] conn h = absurd (omega arith)
consume_buffered (suc n) (b ∷ buffered) conn h = consume_buffered n buffered conn (omega arith)

fill_piece :
    (b : ℕ) (piece : Bytes) (conn : Conn)
    → length (b ∷ piece) ≤ buffer_size
    → fill ((b ∷ piece) ∷ conn) ≡ record { buffered = b ∷ piece; conn = conn }
unfolding fill filled read_conn
fill_piece b piece conn fits = rw (le→leb (length (b ∷ piece)) buffer_size fits) refl

-- A piece that fits the buffer is taken off the connection as a whole.
pub consume_piece :
    (n : ℕ) (piece : Bytes) (conn : Conn)
    → 1 ≤ n
    → n ≤ length piece
    → length piece ≤ buffer_size
    → (consume n (new_reader (piece ∷ conn))).conn ≡ conn
unfolding consume peek peeked pop
consume_piece zero piece conn pos le fits = absurd (omega arith)
consume_piece (suc n) [] conn pos le fits = absurd (omega arith)
consume_piece (suc n) (b ∷ piece) conn pos le fits =
    ap (λ (r : Reader). (consume n (pop r.buffered r.conn)).conn) (fill_piece b piece conn fits)
    ∙ consume_buffered n piece conn (omega arith)
