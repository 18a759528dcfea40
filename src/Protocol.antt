-- ===== src/Protocol.antt =====
-- The metadata of the frames: packages/effect-tls-client/src/internal/Protocol.ts, with `ErrorKind`
-- of packages/effect-tls-client/src/generated/Profile.ts.
pub mod Metadata
pub mod Schema
pub mod Targets
