-- ===== src/Lib.antt =====
-- Verification of the Hallmaster proxy, a man-in-the-middle proxy between Discord bots and Discord
-- (the Go code under proxy/), and of the load generator that measures it (tests/stress/driver).
--
-- The program. A bot connects to the listener (proxy/internals/mitm.go), directly by TLS or with a
-- CONNECT; the listener terminates TLS with a leaf certificate made for the host
-- (proxy/internals/certs/certs.go) and hands the session to HttpsHandler
-- (proxy/internals/handlers/https.go). That loop reads requests, opens nested CONNECTs, keeps one
-- upstream connection per session and host (its address from proxy/internals/dnsbypass), passes
-- foreign hosts through blindly, and for Discord's hosts and the proxy's own lets a Tamperer
-- (proxy/internals/tamper) see each request and response, with bodies decoded and framed again by
-- proxy/internals/httpio. A WebSocket upgrade hands the session to InspectWS
-- (proxy/internals/handlers/ws.go), two pumps that copy frames in both directions.
--
-- The files. A module with children holds the definitions, its children the proofs.
--   Base, Text        Booleans, results, lists and integers; byte strings as Go's strings package
--                     and strconv.Itoa and Atoi see them.
--   Net               net.SplitHostPort and net.JoinHostPort, byte for byte.
--   Bufio             bufio.Reader over a connection: what it buffers, and what is still to arrive.
--   Dns               dnsbypass/resolver.go: NewExternalResolver and Resolve.
--   Http              the parts of net/http's Request, Response, Header and body readers in use.
--   Httpio            httpio/content_type.go, decode.go and encode.go: isBinary, DecodeBody, Encode;
--                     Httpio.Maps has a header as Go's unordered map, a quotient of lists.
--   Tamper            tamper/tamper.go and logging.go: the interface, Nop, Logging and its preview.
--                     Tamper.Latency: LatencyTamperer of internaltest/latency.go; Latency.Pairs and
--                     Latency.Percentiles the functions of these names.
--   Handlers.Host     isDiscordHost of handlers/https.go.
--   Handlers.Https    HttpsHandler: Https.State has its locals as a record (layer, server,
--                     dialled_host, connect_depth), Https.Exchange the intercepted exchange, Https
--                     the rounds of the loop; a round returns its events and goes on or stops.
--                     Https.Pump the two copies of a blind connection, in any interleaving;
--                     Https.Client the order that a client can rely on; Https.KeepAlive sessions of
--                     several requests; Https.Observed what the tamperer is shown of
--                     a response; Https.Erased runs with another tamperer that settles on
--                     the same objects.
--   Handlers.Ws       one round of each of InspectWS's two pumps; Ws.Gateway runs the two in any
--                     interleaving, with the zlib decoder in it, whose calls may block.
--   Certs             certs/certs.go: createCertificate; Certs.Cache one call of GetOrCreateCert,
--                     Certs.Group many at once; Certs.Load New.
--   Mitm              mitm.go: handleHTTPConn and handleDirectTLS as the events of one connection,
--                     Serve's accept loop with the ready flag, Handshake's GetCertificate;
--                     Mitm.Handshake the handshakes of all connections on one certificate cache,
--                     Mitm.Handled a connection with its handshake; Mitm.Wire the bytes that a
--                     handshake reads behind a buffered reader.
--   Visit             one connection whole: the listener's part, the handler in it, and in that the
--                     frames of InspectWS or the copies of the blind pump; Visit.Production a
--                     visit to the proxy that main starts, for a WebSocket; Visit.Served one for
--                     REST requests.
--   Sessions          the handler's sessions on many connections, whose rounds a scheduler
--                     interleaves and which share the tamperer.
--   Config            config/config.go: Load; the answer of healthz/healthz.go; the handler's
--                     dependencies as main.go fills them in.
--   Main              main.go: the start of the process, with Listen of mitm.go; main_stress.go: the
--                     override of the stress build. Main.Lifecycle: the health server beside Listen
--                     and Serve.
--   Internaltest      internaltest/runtimestats.go: snapshots and their difference on machine words;
--                     Internaltest.Ca internaltest/ca.go: WriteTestCA and IssueLeaf.
--   Discord           discord/wscompress.go: Decode of the zlib stream, as calls that return or block.
--   Driver            tests/stress/driver/main.go: computeTarget; Driver.Control doJSON and its
--                     callers; Driver.Setup runScenario; Driver.Ops runOps as a step relation on its
--                     channel and workers; Driver.Recorder the recorder, and the calls of op in a
--                     gateway scenario, Driver.Rest those in a REST scenario; Driver.Report the rows
--                     of writeCSV, Driver.Summary the numbers of writeSummary and distOf;
--                     Driver.Shard the shard of gateway.go there.
--   Tests             runs on concrete inputs, and the theorems at concrete inputs.
--
-- Parameters, for code that is not in the repository: Unicode case tables outside ASCII, the
-- decompressors, encoding/json, LookupHost, the WebSocket cipher, the inflater behind the zlib
-- decoder, the signer, the draws of randomness, singleflight's Do and its admission of goroutines,
-- files, sockets and PEM, products in floating point, how crypto/tls ends a handshake, and what
-- reads, writes, dials and handshakes answer in each round. Of a body that breaks off, the reader
-- says whether a second read fails as well. A property that relies on such code
-- names what it relies on as a hypothesis.
--
-- Bounds. Loops are structural on what arrives. The digits of a number n take n + 1 rounds, which
-- Text.Decimal shows to be enough; backing off to a rune start is structural on the position.
-- The loop of Pairs has a round of fuel for each sample, which Latency.Pairs.Paired shows to be
-- enough. Integers of internaltest are words of 64 and 32 bits, as remainders.
-- Certs.Group looks at a window of six days, in which no certificate comes near its end.
--
-- Granularity. A round of HttpsHandler is one step of its session, and one frame, or one read with
-- its write, one step of a pump. A write that fails counts as made: how much of it went out is the
-- connection's. In a visit the frames stand together behind the upgrade that they belong to, and the handler goes on only when both pumps, or
-- both copies, have returned. A worker of runOps receives a number in one step and calls op in a later.
--
-- Not modelled: logging other than the Logging tamperer's, timeouts, deadlines and cancellation (but
-- for runOps), the profiler of the stress build, the decoder's Close, the stress driver's heartbeats, sampler and printing
-- of reports, and the mocks, bots and scripts around the proxy.
pub mod Base
pub mod Bufio
pub mod Certs
pub mod Config
pub mod Discord
pub mod Dns
pub mod Driver
pub mod Handlers
pub mod Http
pub mod Httpio
pub mod Internaltest
pub mod Main
pub mod Mitm
pub mod Net
pub mod Sessions
pub mod Tamper
pub mod Tests
pub mod Text
pub mod Visit
