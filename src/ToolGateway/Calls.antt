-- ===== src/ToolGateway/Calls.antt =====
-- Which invocations call their tool.
use aegis_flow.Base.{
  String, Option, [], ◌∷◌, ◌++◌, ◌≡◌, refl, ◌⊎◌, inl, inr, arith, Result-cases, ok, eq_iff,
}
use aegis_flow.ToolGateway.{
  ToolInvocationRequest, AuthorizedTool, McpServerCredential, Invocation, Gateway, GatewayError,
  record_invocation, create_tool_approval_task, audit_invocation, audit_approval,
}
use aegis_flow.ToolGateway.Service.{SecretLease, ToolGatewayService, Fresh, Invoked, tool_call}
use aegis_flow.ToolGateway.Invoke.{
  refuse_invocation, call_authorized_tool, lease_and_call, invoke_allowed, request_approval,
  invoke_valid, invoke,
}
use aegis_flow.ToolGateway.Ends.{
  Leased, public, leased, Callable, End, refused, waits, calls, invoke-End,
}

pub record_invocation-calls :
    (i : Invocation) (g after : Gateway) → record_invocation i g ≡ ok after → after.calls ≡ g.calls
unfolding record_invocation
record_invocation-calls i g after h = ground arith

module _ (service : ToolGatewayService) (project_id actor_id : String) (fresh : Fresh)
    (request : ToolInvocationRequest) where
  pub refuse-calls :
      (i : Invocation) (error : GatewayError) (g : Gateway)
      → (refuse_invocation service project_id actor_id fresh request i error g).1.calls ≡ g.calls
  unfolding refuse_invocation audit_invocation
  refuse-calls i error g = elim (Result-cases (record_invocation i g)) [
    | inl (after, e) ↦ rw (e, refuse_invocation, record_invocation-calls i g after e) refl
    | inr (raised, e) ↦ rw (e, refuse_invocation) refl
  ]

  call-calls :
      (tool : AuthorizedTool) (server : McpServerCredential) (lease : Option SecretLease)
      (g : Gateway)
      → (call_authorized_tool service project_id actor_id fresh request tool server lease g).1.calls
        ≡ g.calls ++ tool_call service server tool request lease ∷ []
  unfolding call_authorized_tool audit_invocation
  call-calls tool server lease g =
      elim (Result-cases (service.call_tool (tool_call service server tool request lease))) [
        | inl (r, e) ↦ grind (arith, e, record_invocation-calls)
        | inr (raised, e) ↦ grind (arith, e, refuse-calls)
      ]

  waits-calls :
      (tool : AuthorizedTool) (g : Gateway)
      → (request_approval service project_id actor_id fresh request tool g).1.calls ≡ g.calls
  unfolding request_approval audit_invocation audit_approval create_tool_approval_task
  waits-calls tool g = grind (arith, record_invocation-calls)

  abbrev pub InvokeCalls : Gateway → Gateway → Type 0
  InvokeCalls g after =
      (tool : AuthorizedTool) × ((server : McpServerCredential) × ((lease : Option SecretLease)
          × (Callable service project_id request tool server lease
              × (after.calls ≡ g.calls ++ tool_call service server tool request lease ∷ []))))

  End-calls :
      (g : Gateway) (r : Invoked)
      → End service project_id actor_id fresh request g r
      → (r.1.calls ≡ g.calls) ⊎ InvokeCalls g r.1
  End-calls g _ (refused i error d) = inl (refuse-calls i error g)
  End-calls g _ (waits tool e d) = inl (waits-calls tool g)
  End-calls g _ (calls tool server lease c) =
      inr (tool, (server, (lease, (c, call-calls tool server lease g))))

  -- An invocation calls no tool, or it makes one call, with the arguments of the request: of the tool
  -- that the registry authorizes for the request, whose schema the arguments fit, that the approval
  -- policy allows, at its server, under the lease of the server's credential where it has one.
  pub invoke_calls :
      (g : Gateway)
      → ((invoke service project_id actor_id fresh request g).1.calls ≡ g.calls)
        ⊎ InvokeCalls g (invoke service project_id actor_id fresh request g).1
  invoke_calls g = End-calls g _ (invoke-End service project_id actor_id fresh request g)

  credential-call :
      (tool : AuthorizedTool) (server : McpServerCredential) (lease : Option SecretLease)
      (g : Gateway)
      → Leased service project_id tool server lease
      → lease_and_call service project_id actor_id fresh request tool server g
        ≡ call_authorized_tool service project_id actor_id fresh request tool server lease g
  unfolding lease_and_call
  credential-call tool server _ g (public e) = ground (arith, eq_iff server.credential_ref "")
  credential-call tool server _ g (leased credential lease n e f) =
      ground (arith, eq_iff server.credential_ref "", n, e, f)

  -- An invocation for which all of this is there does make the call.
  pub invoke_calls_allowed :
      (tool : AuthorizedTool) (server : McpServerCredential) (lease : Option SecretLease)
      (g : Gateway)
      → Callable service project_id request tool server lease
      → (invoke service project_id actor_id fresh request g).1.calls
        ≡ g.calls ++ tool_call service server tool request lease ∷ []
  unfolding invoke invoke_valid invoke_allowed
  invoke_calls_allowed tool server lease g c = grind (
    arith,
    c.authorized,
    c.valid,
    c.permitted,
    c.served,
    credential-call tool server lease g c.credential,
    call-calls tool server lease g,
  )
