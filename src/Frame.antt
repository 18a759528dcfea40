-- ===== src/Frame.antt =====
-- packages/effect-tls-client/src/internal/Frame.ts
pub mod Kind
pub mod Codec
pub mod RoundTrip
pub mod Decoder
pub mod Stream
pub mod Chunks
pub mod Runs
