-- ===== src/Client.antt =====
-- packages/effect-tls-client/src/TlsClient.ts: sessions, requests, cookies and WebSockets over the
-- Bridge.
pub mod Platform
pub mod Failures
pub mod Bodies
pub mod Joining
pub mod Cookies
pub mod CookieTrip
pub mod Requests
pub mod Lengths
pub mod Normal
pub mod Admission
pub mod Sending
pub mod Sessions
pub mod Accounts
pub mod Ledger
pub mod Lifecycles
pub mod Destroying
pub mod Simulation
pub mod Balance
pub mod WebSockets
pub mod SocketSteps
pub mod SocketFailure
pub mod Responses
pub mod Caching
pub mod Counting
pub mod Calls
pub mod Acceptance
pub mod Samples
pub mod Runs
pub mod SessionRuns
