-- ===== src/Mitm/Wire.antt =====
-- The bytes on a client connection, in handleHTTPConn of mitm.go and in the nested CONNECT of
-- handlers/https.go: which of them a TLS handshake gets to read.
use hallmaster_proxy.Base.{
  ℕ, ◌≤◌, List, ◌∷◌, ◌++◌, Option, none, some, ◌≡◌, ap, ◌∙◌, arith, length, drop, length-append,
}
use hallmaster_proxy.Text.{Bytes}
use hallmaster_proxy.Bufio.{
  Conn, Reader, arriving, stream, buffer_size, new_reader, peek, consume, reads, conn_reads,
}
use hallmaster_proxy.Bufio.Stream.{
  consume_piece, peek-stream, consume-stream, reads-stream, conn_reads-arriving,
}

-- What of the connection handleHTTPConn consumes: nothing if TLS begins at once, or a CONNECT
-- request of so many bytes.
abbrev pub consumed : Option ℕ → ℕ
consumed none = 0
consumed (some n) = n

-- handleHTTPConn makes a bufio.Reader, peeks, perhaps reads a request, and gives the TLS server a
-- bufferedConn, whose Read is the reader's.
unfoldable pub handshake_reads : Option ℕ → List ℕ → Conn → Bytes × Reader
unfolding reads peek consume
handshake_reads connect sizes conn =
    reads sizes (consume (consumed connect) (peek (new_reader conn)))

-- HttpsHandler reads the CONNECT of `n` bytes through clientReader, and hands clientTLS itself to
-- Handshake.
unfoldable pub nested_reads : ℕ → List ℕ → Conn → Bytes × Conn
unfolding conn_reads consume
nested_reads n sizes conn = conn_reads sizes (consume n (new_reader conn)).conn

-- However the bytes arrive and in whatever sizes TLS reads them, the first handshake reads what the
-- client sent, from the first byte on or from the end of the CONNECT, in order and without loss.
pub handshake_reads-drop :
    (connect : Option ℕ) (sizes : List ℕ) (conn : Conn)
    → (handshake_reads connect sizes conn).0 ++ stream (handshake_reads connect sizes conn).1
      ≡ drop (consumed connect) (arriving conn)
unfolding handshake_reads
handshake_reads-drop connect sizes conn =
    reads-stream sizes (consume (consumed connect) (peek (new_reader conn)))
    ∙ consume-stream (consumed connect) (peek (new_reader conn))
    ∙ ap (drop (consumed connect)) (peek-stream (new_reader conn))

-- If a nested CONNECT and the ClientHello behind it arrive in one piece that fits the buffer, the
-- nested handshake does not get to read the ClientHello: all that it reads arrived later.
pub nested_reads-later :
    (request hello : Bytes) (later : Conn) (sizes : List ℕ)
    → 1 ≤ length request
    → length (request ++ hello) ≤ buffer_size
    → (nested_reads (length request) sizes ((request ++ hello) ∷ later)).0
        ++ arriving (nested_reads (length request) sizes ((request ++ hello) ∷ later)).1
      ≡ arriving later
unfolding nested_reads
nested_reads-later request hello later sizes pos fits =
    rw
      (consume_piece (length request) (request ++ hello) later pos
        (omega (arith, length-append request hello)) fits)
      (conn_reads-arriving sizes later)
