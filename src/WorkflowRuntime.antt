-- ===== src/WorkflowRuntime.antt =====
-- backend/app/workflow_runtime: the compiler, the rows of runs, the durable queue and its worker.
pub mod Compiler
pub mod Runs
pub mod Queue
pub mod Worker
pub mod Runner
