-- ===== src/Http.antt =====
-- packages/effect-tls-client/src/TlsHttpClient.ts: the adapter to effect's HttpClient.
pub mod Headers
pub mod Combining
pub mod Bodies
pub mod Adapter
pub mod Delivery
pub mod Runs
pub mod Reading
pub mod BodyLog
pub mod Rereading
