-- ===== src/Execution.antt =====
-- backend/app/execution: the sandbox of shell templates and the policy on them.
pub mod Sandbox
pub mod ShellPolicy
