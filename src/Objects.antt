-- ===== src/Objects.antt =====
-- internal/objectstore, internal/store and internal/service: the objects that reports are stored in.
pub mod Key
mod Parts
pub mod Row
pub mod Registry
pub mod Media
mod Rows
mod Inserts
pub mod Invariant
pub mod Acquire
pub mod Ledger
pub mod LedgerLaws
mod Quiet
mod QuietPut
mod Register
pub mod Balance
pub mod PutGet
pub mod Collector
pub mod CollectorLaws
pub mod CollectorSafety
pub mod CollectorGaps
mod CollectorStep
pub mod CollectorDone
pub mod CollectorLive
pub mod Verify
pub mod VerifyRun
pub mod VerifyLaws
pub mod VerifyMarks
pub mod VerifySafety
pub mod VerifySound
mod Unfold
mod Tests
mod StoreTests
mod VerifyTests
pub mod Refs
pub mod Payload
pub mod Safety
pub mod RoundTrip
