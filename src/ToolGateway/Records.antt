-- ===== src/ToolGateway/Records.antt =====
-- What an invocation of a tool leaves in the store and in the audit trail.
use aegis_flow.Base.{
  String, true, false, List, [], ◌∷◌, ◌++◌, any, ◌≡◌, refl, inl, inr, arith, Result-cases, ok, err,
  In,
}
use aegis_flow.ToolGateway.{
  ToolInvocationRequest, Invocation, AuditEvent, Gateway, GatewayError, integrity_error, same_call,
  record_invocation,
}
use aegis_flow.ToolGateway.Service.{
  ToolGatewayService, Fresh, Invoked, ToolInvocationResponse, tool_call,
}
use aegis_flow.ToolGateway.Invoke.{
  refuse_invocation, waiting_invocation, answered_invocation, call_authorized_tool,
  request_approval, invoke,
}
use aegis_flow.ToolGateway.Ends.{call_id, Describes, End, refused, waits, calls, invoke-End}

record_invocation-reused :
    (i : Invocation) (g : Gateway)
    → any (same_call i.project_id i.tool_call_id) g.invocations ≡ true
    → record_invocation i g ≡ err integrity_error
unfolding record_invocation
record_invocation-reused i g h = ground arith

-- An event of the invocation by its actor.
pub record Audited (i : Invocation) (events : List AuditEvent) : Type 0 where
  pub event : AuditEvent
  pub recorded : In event events
  pub about : event.target_id ≡ i.id
  pub by : event.actor_id ≡ i.actor_id

-- What a recorded invocation leaves.
pub record Recorded (project_id actor_id : String) (fresh : Fresh) (request : ToolInvocationRequest)
    (old : List Invocation) (r : Invoked) : Type 0 where
  pub invocation : Invocation
  pub described : Describes project_id actor_id fresh request invocation
  pub added : r.1.invocations ≡ old ++ invocation ∷ []
  pub audited : Audited invocation r.1.events
  pub returned :
      (response : ToolInvocationResponse) → r.0 ≡ ok response → response.invocation ≡ invocation

module _ (service : ToolGatewayService) (project_id actor_id : String) (fresh : Fresh)
    (request : ToolInvocationRequest) where
  abbrev pub IsNew : Gateway → Type 0
  IsNew g = any (same_call project_id (call_id fresh request)) g.invocations ≡ false

  abbrev added_to : Invocation → Gateway → Gateway
  added_to i g = record g { invocations = g.invocations ++ i ∷ [] }

  abbrev pub Untouched : Gateway → Invoked → Type 0
  Untouched g r =
      (r.0 ≡ err integrity_error)
      × ((r.1.invocations ≡ g.invocations)
          × ((r.1.approval_tasks ≡ g.approval_tasks) × (r.1.events ≡ g.events)))

  abbrev pub IsReused : Gateway → Type 0
  IsReused g = any (same_call project_id (call_id fresh request)) g.invocations ≡ true

  reused :
      (i : Invocation) (g : Gateway)
      → Describes project_id actor_id fresh request i
      → IsReused g
      → record_invocation i g ≡ err integrity_error
  reused i g (d, (p, (a, (t, c)))) h = record_invocation-reused i g (rw (p, c) h)

  refuse-Untouched :
      (i : Invocation) (error : GatewayError) (g : Gateway)
      → Describes project_id actor_id fresh request i
      → IsReused g
      → Untouched g (refuse_invocation service project_id actor_id fresh request i error g)
  unfolding refuse_invocation
  refuse-Untouched i error g d h =
      simp (reused i g d h, refuse_invocation) (refl, (refl, (refl, refl)))

  End-Untouched :
      (g : Gateway) (r : Invoked)
      → IsReused g
      → End service project_id actor_id fresh request g r
      → Untouched g r
  unfolding request_approval call_authorized_tool
  End-Untouched g _ h (refused i error d) = refuse-Untouched i error g d h
  End-Untouched g _ h (waits tool e d) =
      let i = waiting_invocation service project_id actor_id fresh request tool in
      simp (reused i g (refl, (refl, (refl, (refl, refl)))) h, request_approval)
        (refl, (refl, (refl, refl)))
  End-Untouched g _ h (calls tool server lease c) =
      elim (Result-cases (service.call_tool (tool_call service server tool request lease))) [
        | inl (r, e) ↦
            let i =
              answered_invocation service project_id actor_id fresh request tool server lease r in
            let made : Gateway = record g {
              calls = g.calls ++ tool_call service server tool request lease ∷ [];
            } in
            simp (e, reused i made (refl, (refl, (refl, (refl, refl)))) h, call_authorized_tool)
              (refl, (refl, (refl, refl)))
        | inr (raised, e) ↦
            simp (e, call_authorized_tool)
              (refuse-Untouched _ _ _ (refl, (refl, (refl, (refl, refl)))) h)
      ]

  -- An invocation that repeats the call id of a row of its project raises an error of the database that
  -- nothing catches, and leaves the rows, the tasks and the audit trail as they were.
  pub invoke_reused :
      (g : Gateway) → IsReused g → Untouched g (invoke service project_id actor_id fresh request g)
  invoke_reused g h = End-Untouched g _ h (invoke-End service project_id actor_id fresh request g)
