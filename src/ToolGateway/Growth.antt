-- ===== src/ToolGateway/Growth.antt =====
-- What an invocation adds to the calls and to the tasks that are not resumed.
use aegis_flow.Base.{
  ℕ, ◌+◌, ◌≤◌, String, Option, [], ◌∷◌, ◌++◌, count, length, length-append, count-append, ◌≡◌, refl,
  sym, ◌∙◌, subst, inl, inr, arith, Result-cases, ok,
}
use aegis_flow.ToolGateway.{
  ToolInvocationRequest, AuthorizedTool, McpServerCredential, Invocation, Gateway, GatewayError,
  record_invocation, create_tool_approval_task, audit_invocation, audit_approval,
}
use aegis_flow.ToolGateway.Service.{SecretLease, ToolGatewayService, Fresh, Invoked, tool_call}
use aegis_flow.ToolGateway.Invoke.{
  refuse_invocation, waiting_invocation, answered_invocation, call_authorized_tool,
  new_approval_task, request_approval,
}
use aegis_flow.ToolGateway.Ends.{End}
use aegis_flow.ToolGateway.Accounts.{is_open}

abbrev pub owed : Gateway → ℕ
owed g = length g.calls + count is_open g.approval_tasks

record-owed :
    (i : Invocation) (g after : Gateway) → record_invocation i g ≡ ok after → owed after ≡ owed g
unfolding record_invocation
record-owed i g after h =
    let e : after ≡ record g { invocations = g.invocations ++ i ∷ [] } = ground arith in
    subst (λ (a : Gateway). owed a ≡ owed g) (sym e) refl

module _ (service : ToolGatewayService) (project_id actor_id : String) (fresh : Fresh)
    (request : ToolInvocationRequest) where
  refuse-owed :
      (i : Invocation) (error : GatewayError) (g : Gateway)
      → owed (refuse_invocation service project_id actor_id fresh request i error g).1 ≡ owed g
  unfolding refuse_invocation audit_invocation
  refuse-owed i error g = elim (Result-cases (record_invocation i g)) [
    | inl (after, h) ↦ simp (h, refuse_invocation) (record-owed i g after h)
    | inr (raised, h) ↦ simp (h, refuse_invocation) refl
  ]

  waits-owed :
      (tool : AuthorizedTool) (g : Gateway)
      → owed (request_approval service project_id actor_id fresh request tool g).1 ≤ owed g + 1
  unfolding request_approval audit_invocation audit_approval create_tool_approval_task
  waits-owed tool g =
      let i = waiting_invocation service project_id actor_id fresh request tool in
      let task = new_approval_task service project_id actor_id fresh request tool i in
      elim (Result-cases (record_invocation i g)) [
        | inr (raised, h) ↦ simp (h, request_approval) (omega arith)
        | inl (after, h) ↦
            let e = record-owed i g after h in
            simp (h, request_approval)
              (omega (arith, e, count-append is_open after.approval_tasks (task ∷ [])))
      ]

  calls-owed :
      (tool : AuthorizedTool) (server : McpServerCredential) (lease : Option SecretLease)
      (g : Gateway)
      → owed (call_authorized_tool service project_id actor_id fresh request tool server lease g).1
        ≡ owed g + 1
  unfolding call_authorized_tool audit_invocation
  calls-owed tool server lease g =
      let call = tool_call service server tool request lease in
      let made : Gateway = record g { calls = g.calls ++ call ∷ [] } in
      let more = length-append g.calls (call ∷ []) in
      elim (Result-cases (service.call_tool call)) [
        | inr (raised, e) ↦
            simp (e, call_authorized_tool) (refuse-owed _ _ made ∙ omega (arith, more))
        | inl (r, e) ↦
            let i =
              answered_invocation service project_id actor_id fresh request tool server lease r in
            elim (Result-cases (record_invocation i made)) [
              | inl (after, h) ↦
                  simp (e, h, call_authorized_tool)
                    (record-owed i made after h ∙ omega (arith, more))
              | inr (raised, h) ↦ simp (e, h, call_authorized_tool) (omega (arith, more))
            ]
      ]

  -- An invocation adds one call at most, or one task.
  pub End-owed :
      (g : Gateway) (r : Invoked)
      → End service project_id actor_id fresh request g r
      → owed r.1 ≤ owed g + 1
  End-owed g _ (End.refused i error d) = omega (arith, refuse-owed i error g)
  End-owed g _ (End.waits tool e d) = waits-owed tool g
  End-owed g _ (End.calls tool server lease c) = omega (arith, calls-owed tool server lease g)
