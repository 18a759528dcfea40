-- ===== src/Lib.antt =====
-- Verification of the effect-tls-client library: the frame protocol and the Bridge client of
-- packages/effect-tls-client/src/internal, and the TLS client and the HTTP client of
-- packages/effect-tls-client/src that stand on them.
--
-- The program talks to a Go process, the Bridge, over stdin and stdout. Frame.ts turns frames into
-- bytes and a stream of chunks back into frames; Protocol.ts gives the metadata of frames its
-- schemas; Errors.ts the errors; Bridge.ts multiplexes calls, response streams, request bodies and
-- WebSockets over the one connection, with a map from ids to pending operations. TlsClient.ts gives
-- sessions, requests, cookies and WebSockets over the Bridge, and TlsHttpClient.ts makes a session
-- effect's HttpClient.
--
-- Files:
-- - Prelude: library names, Boolean tests, lists, results, options, integers, sets, association
--   lists and sums over the native numbers.
-- - Frame/Kind, Frame/Codec, Frame/Decoder: `FrameKind`, `encodeFrame`, `decodeFrame`,
--   `FrameDecoder` and `decodeFrames` of packages/effect-tls-client/src/internal/Frame.ts. Bytes
--   are lists of numbers. Frame/RoundTrip, Frame/Stream and Frame/Chunks are about them; Frame/Runs
--   runs them.
-- - Protocol/Metadata, Protocol/Schema: the schemas of
--   packages/effect-tls-client/src/internal/Protocol.ts, their filters, `decodeMeta` and
--   `encodeMeta`. Protocol/Targets is about the filters.
-- - Errors: packages/effect-tls-client/src/internal/Errors.ts.
-- - Bridge/World, Bridge/Settle: the state of `makeBridge` in
--   packages/effect-tls-client/src/internal/Bridge.ts, `markDead`, `completePending`,
--   `completeStream`, `completeWebSocket`. The objects in the `pending` map are shared with the
--   fibers that made them, so the map holds references into a store. What is done to deferreds,
--   queues and the process is a log of actions.
-- - Bridge/ErrorFrames, Bridge/StreamFrames, Bridge/SocketFrames, Bridge/Dispatch: the handlers of
--   stdout. A `try` block is a result; its handler is `caught`.
-- - Bridge/Writing, Bridge/Calls, Bridge/Requests, Bridge/Uploads, Bridge/Sockets, Bridge/Hello:
--   `writeFrame`, `sendCancel`, `allocateId`, `call`, `stream`, `request`, `webSocket`, the hello
--   exchange and `release`. Each fiber is cut into the steps between its waits.
-- - Bridge/Ledger, Bridge/Ending, Bridge/Returns, Bridge/Conservation: what the handlers settle.
--   Bridge/Orderly, Bridge/Opening, Bridge/Moves, Bridge/Closing: the invariant, and that each
--   operation keeps it. Bridge/Steps: all operations as one step relation. Bridge/Flight and the
--   modules whose names begin with it: the bytes of uploads in flight along the steps. Bridge/Ids,
--   Bridge/Negotiation, Bridge/Written, Bridge/Progress, Bridge/Slices, Bridge/Stderr,
--   Bridge/Credit: single functions. Bridge/Resuming: an upload that waits and the acknowledgement
--   that it waits for. Bridge/Runs and Bridge/FlightRuns: a short connection and a request.
--   Bridge/Signals: `signalFromError`; Bridge/Searching and Bridge/SignalRuns are about it.
-- - Client/Platform: what packages/effect-tls-client/src/TlsClient.ts and TlsHttpClient.ts use of
--   the platform and of effect's cookies, as a record.
-- - Client/Failures, Client/Bodies, Client/Cookies, Client/Requests, Client/Calls: `requestError`,
--   `socketError`, `concatenate`, `encodeBody`, `toWireCookie`, `normalizeCookies`,
--   `cookiesFromWire`, `normalizeRequest`, `requestWith` up to the Bridge's first step, and the
--   calls of `makeSession` and of the layer. Client/Joining, Client/CookieTrip, Client/Lengths,
--   Client/Normal, Client/Admission, Client/Sending and Client/Acceptance are about them, the last
--   three with Bridge/Requests and Bridge/Calls.
-- - Client/Sessions: `activeSessions`, `session`, `destroySession` and the finaliser as steps of
--   fibers. Client/Lifecycles: the abstract view of a session; Client/Accounts, Client/Ledger,
--   Client/Destroying, Client/Simulation, Client/Balance: that the code implements it.
-- - Client/WebSockets: `normalizeWebSocket` and `makeWebSocketSocket`; Client/SocketSteps and
--   Client/SocketFailure are about it. Client/Responses: `responseFrom`; Client/Caching and
--   Client/Counting are about it. Client/Samples, Client/Runs and Client/SessionRuns run them.
-- - Http/Headers, Http/Bodies, Http/Adapter, Http/Reading: `combineHeaderPairs`, `withBodyHeaders`,
--   `bodyFromRaw`, `bodyFromHttpBody`, `makeClient` and what reading a `TlsHttpResponse` comes to,
--   of packages/effect-tls-client/src/TlsHttpClient.ts. Http/Combining, Http/Delivery, Http/BodyLog
--   and Http/Rereading are about them; Http/Runs runs them.
--
-- Bounds and fuel: the loop of `FrameDecoder.push` has the number of bytes as fuel, and each round
-- takes 4 bytes at least (Frame/Stream shows that the loop's equation holds for it). The loop of
-- `allocateId` has one round more than there are pending ids, and runs out only where `none` is
-- returned. The search of `signalFromError` has its depth as fuel, and one more than there are
-- objects is enough. The loop that slices a chunk has the length of the chunk as fuel. Ids, lengths
-- and kinds are natural numbers with the source's checks.
--
-- Parameters: the JSON codec of a schema (effect's `Schema.fromJsonString`), whether a queue takes
-- an element (`Queue.offerUnsafe`), whether the process takes what is written, and the bytes it
-- sends; the platform's `toLowerCase`, `Number`, `String`, `FormData`, `URLSearchParams`, `Blob`
-- and readable streams, effect's cookies and headers, and the tests of a text for a timeout and a
-- signal. Arguments have the types that the source declares, so that a schema can only fail on the
-- value of a number or on a filter.
--
-- Not modelled: spawning the process; the scheduling of effect's fibers beyond the order of the
-- steps; the request's scope and the abort signal in TlsHttpClient.ts; BridgeBinary.ts and
-- Telemetry.ts of packages/effect-tls-client/src; the generated profiles; the Go process under
-- bridge; scripts.
pub mod Prelude
pub mod Frame
pub mod Protocol
pub mod Errors
pub mod Bridge
pub mod Client
pub mod Http
