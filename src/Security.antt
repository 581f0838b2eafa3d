-- ===== src/Security.antt =====
-- backend/app/security: where a request to the outside may go.
pub mod EgressPolicy
pub mod EgressProxy
