-- ===== src/Bridge.antt =====
-- packages/effect-tls-client/src/internal/Bridge.ts
pub mod World
pub mod Settle
pub mod ErrorFrames
pub mod StreamFrames
pub mod SocketFrames
pub mod Dispatch
pub mod Ledger
pub mod Ending
pub mod Returns
pub mod Writing
pub mod Written
pub mod Ids
pub mod Hello
pub mod Calls
pub mod Requests
pub mod Uploads
pub mod Sockets
pub mod Orderly
pub mod Opening
pub mod Slices
pub mod Stderr
pub mod Credit
pub mod Conservation
pub mod Moves
pub mod Closing
pub mod Steps
pub mod Negotiation
pub mod Flight
pub mod FlightStream
pub mod FlightStdout
pub mod FlightWriting
pub mod FlightUploads
pub mod FlightOpening
pub mod FlightSteps
pub mod Progress
pub mod Resuming
pub mod Runs
pub mod FlightRuns
pub mod Signals
pub mod Searching
pub mod SignalRuns
