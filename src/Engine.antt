-- ===== src/Engine.antt =====
-- Package engine: the workflow interpreter (workflow/).
pub mod Dsl
pub mod Park
pub mod Mapping
pub mod Items
pub mod Batch
pub mod BatchResults
pub mod ParallelMerge
pub mod SubGraph
pub mod State
pub mod Runtime
pub mod Exec
pub mod Ids
pub mod Nodes
pub mod Gateways
pub mod ParallelSplit
pub mod BatchSplit
pub mod Signaling
pub mod SplitTask
pub mod Admin
pub mod Interpreter
pub mod Run
pub mod Completion
pub mod Validate
pub mod History
