-- ===== src/Consensus.antt =====
-- crates/consensus: the DAG consensus of one validator.
mod Tests
mod TestsDag
mod TestsDigest
mod TestsSolo
mod TestsNode
mod TestsRules
mod TestsConflict
mod TestsManager
pub mod Committee
pub mod Types
pub mod StakeAggregator
pub mod ThresholdClock
pub mod SoftCommit
pub mod Commit
pub mod DagState
pub mod Linearizer
pub mod BaseCommitter
pub mod UniversalCommitter
pub mod BlockManager
pub mod Node
