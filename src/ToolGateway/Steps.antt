-- ===== src/ToolGateway/Steps.antt =====
-- The gateway over any sequence of invocations, decisions and resumptions.
use aegis_flow.Base.{ℕ, String, Bool, false, [], any, ◌≡◌}
use aegis_flow.Base.Texts.{Text}
use aegis_flow.ToolGateway.{ToolInvocationRequest, ToolApprovalDecision, Gateway, same_call}
use aegis_flow.ToolGateway.Service.{ToolGatewayService, Fresh}
use aegis_flow.ToolGateway.Invoke.{invoke}
use aegis_flow.ToolGateway.Resume.{resume_approval}
use aegis_flow.ToolGateway.ResumeEnds.{calls}
use aegis_flow.ToolGateway.Decide.{decide_tool_approval}
use aegis_flow.ToolGateway.Ends.{call_id}
use aegis_flow.ToolGateway.Accounts.{Sound}

abbrev pub IsSound : Gateway → Type 0
IsSound g = Sound g.invocations g.approval_tasks g.calls

-- One request that the gateway serves. The call id of an invocation is new in its project.
pub data Step (g : Gateway) : Gateway → Type 0 where
  invoked :
      (service : ToolGatewayService) (project_id actor_id : String) (fresh : Fresh)
      (request : ToolInvocationRequest)
      → any (same_call project_id (call_id fresh request)) g.invocations ≡ false
      → Step g (invoke service project_id actor_id fresh request g).1
  decided :
      (project_id account_id : String) (decision : ToolApprovalDecision) (reason : Text) (now : ℕ)
      (permitted : Bool) (id : String)
      → Step g (decide_tool_approval project_id account_id decision reason now permitted id g).1
  resumed_by :
      (service : ToolGatewayService) (project_id actor_id : String) (fresh : Fresh) (id : String)
      → Step g (resume_approval service project_id actor_id fresh id g).1

abbrev pub empty_gateway : Gateway
empty_gateway = record { invocations = []; approval_tasks = []; events = []; calls = [] }

pub data Reachable : Gateway → Type 0 where
  start : Reachable empty_gateway
  step : (g after : Gateway) → Reachable g → Step g after → Reachable after
