-- ===== src/Tests.antt =====
-- Concrete libraries, and the theorems at concrete inputs.
pub mod Memory
pub mod Checks
mod BdbVfsRuns
mod SqliteRuns
mod ProgramRuns
mod TripleDbRuns
mod LFuseRuns
mod LinkRuns
mod BulkRuns
mod TestFsRuns
mod HipRuns
mod ReadRuns
mod ShopRuns
mod ClientRuns
