-- ===== src/Workflows.antt =====
-- backend/app/workflows: the workflow DSL, its import analysis and its publish gate.
pub mod Types
pub mod Validators
pub mod Graph
pub mod Impact
pub mod Spans
pub mod YamlIo
pub mod PublishGate
