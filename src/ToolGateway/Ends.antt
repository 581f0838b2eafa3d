-- ===== src/ToolGateway/Ends.antt =====
-- The three ways an invocation of a tool ends: it is refused, it waits for an approval, or its tool is
-- called.
use aegis_flow.Base.{
  String, Option, none, some, ◌==◌, ◌≡◌, ◌≢◌, refl, arith, Bool-cases, Option-cases, ◌⊎◌, inl, inr,
  eq_iff, if◌then◌else◌,
}
use aegis_flow.PolicyCenter.{Decision, allowed, denied, approval_required}
use aegis_flow.ToolGateway.{
  ToolInvocationRequest, AuthorizedTool, McpServerCredential, Invocation, Gateway, GatewayError,
}
use aegis_flow.ToolGateway.Service.{
  SecretLease, ToolGatewayService, Fresh, Invoked, resolve_authorized_tool,
  evaluate_approval_policy,
}
use aegis_flow.ToolGateway.Invoke.{
  refuse_invocation, call_authorized_tool, lease_and_call, invoke_allowed, request_approval,
  invoke_valid, invoke,
}

-- The lease that a server's credential is given; a server without a credential needs none.
pub data Leased (service : ToolGatewayService) (project_id : String) (tool : AuthorizedTool)
    (server : McpServerCredential) : Option SecretLease → Type 0 where
  public : server.credential_ref ≡ "" → Leased service project_id tool server none
  leased :
      (credential : String) (lease : SecretLease)
      → server.credential_ref ≢ ""
      → server.credential_ref_id ≡ some credential
      → service.create_secret_lease project_id credential tool ≡ some lease
      → Leased service project_id tool server (some lease)

-- All that a call of the tool needs.
pub record Callable (service : ToolGatewayService) (project_id : String)
    (request : ToolInvocationRequest) (tool : AuthorizedTool) (server : McpServerCredential)
    (lease : Option SecretLease) : Type 0 where
  pub authorized : resolve_authorized_tool service project_id request ≡ some tool
  pub valid : service.validation_error tool.input_schema request.arguments ≡ none
  pub permitted : (evaluate_approval_policy service request tool).decision ≡ allowed
  pub served : service.get_mcp_server_credential_for_tool project_id tool.tool_ref ≡ some server
  pub credential : Leased service project_id tool server lease

-- `request.tool_call_id or f"tool_call_{uuid4().hex}"`
abbrev pub call_id : Fresh → ToolInvocationRequest → String
call_id fresh request =
    if request.tool_call_id == "" then fresh.tool_call_id else request.tool_call_id

-- An invocation is of the request: its tool, its call, and by whom in which project.
abbrev pub Describes : String → String → Fresh → ToolInvocationRequest → Invocation → Type 0
Describes project_id actor_id fresh request i =
    (i.id ≡ fresh.invocation_id)
    × ((i.project_id ≡ project_id)
        × ((i.actor_id ≡ actor_id)
            × ((i.tool_ref ≡ request.tool_ref) × (i.tool_call_id ≡ call_id fresh request))))

pub Decision-cases : (d : Decision) → (d ≡ allowed) ⊎ ((d ≡ denied) ⊎ (d ≡ approval_required))
Decision-cases d = ground arith

module _ (service : ToolGatewayService) (project_id actor_id : String) (fresh : Fresh)
    (request : ToolInvocationRequest) (g : Gateway) where
  pub data End : Invoked → Type 0 where
    refused :
        (i : Invocation) (error : GatewayError)
        → Describes project_id actor_id fresh request i
        → End (refuse_invocation service project_id actor_id fresh request i error g)
    waits :
        (tool : AuthorizedTool)
        → resolve_authorized_tool service project_id request ≡ some tool
        → (evaluate_approval_policy service request tool).decision ≡ approval_required
        → End (request_approval service project_id actor_id fresh request tool g)
    calls :
        (tool : AuthorizedTool) (server : McpServerCredential) (lease : Option SecretLease)
        → Callable service project_id request tool server lease
        → End (call_authorized_tool service project_id actor_id fresh request tool server lease g)

  lease-End :
      (tool : AuthorizedTool) (server : McpServerCredential)
      → ((lease : Option SecretLease)
          → Leased service project_id tool server lease
          → Callable service project_id request tool server lease)
      → End (lease_and_call service project_id actor_id fresh request tool server g)
  unfolding lease_and_call
  lease-End tool server rest = elim (Bool-cases (server.credential_ref == "")) [
    | inl e ↦
        rw (e, lease_and_call)
          (calls tool server none (rest none (public ((eq_iff server.credential_ref "").0 e))))
    | inr n ↦ elim (Option-cases server.credential_ref_id) [
      | inl e ↦ simp (n, e, lease_and_call) (refused _ _ (refl, (refl, (refl, (refl, refl)))))
      | inr (credential, e) ↦
          elim (Option-cases (service.create_secret_lease project_id credential tool)) [
            | inl f ↦
                simp (n, e, f, lease_and_call) (refused _ _ (refl, (refl, (refl, (refl, refl)))))
            | inr (lease, f) ↦
                simp (n, e, f, lease_and_call)
                  (calls tool server (some lease) (
                    rest (some lease) (
                      leased credential lease
                        (λ h. absurd (ground (arith, n, (eq_iff server.credential_ref "").1 h))) e
                        f)))
          ]
    ]
  ]

  -- Every invocation ends in one of the three ways, and its tool is called only where all that the call
  -- needs is there.
  pub invoke-End : End (invoke service project_id actor_id fresh request g)
  unfolding invoke invoke_valid invoke_allowed
  invoke-End = elim (Option-cases (resolve_authorized_tool service project_id request)) [
    | inl e ↦ simp (e, invoke) (refused _ _ (refl, (refl, (refl, (refl, refl)))))
    | inr (tool, e) ↦
        elim (Option-cases (service.validation_error tool.input_schema request.arguments)) [
          | inr (message, v) ↦
              simp (e, v, invoke) (refused _ _ (refl, (refl, (refl, (refl, refl)))))
          | inl v ↦ elim (Decision-cases (evaluate_approval_policy service request tool).decision) [
            | inr (inl d) ↦
                simp (e, v, d, invoke, invoke_valid)
                  (refused _ _ (refl, (refl, (refl, (refl, refl)))))
            | inr (inr d) ↦ simp (e, v, d, invoke, invoke_valid) (waits tool e d)
            | inl d ↦
                elim (Option-cases
                  (service.get_mcp_server_credential_for_tool project_id tool.tool_ref)) [
                    | inl s ↦
                        simp (e, v, d, s, invoke, invoke_valid, invoke_allowed)
                          (refused _ _ (refl, (refl, (refl, (refl, refl)))))
                    | inr (server, s) ↦
                        simp (e, v, d, s, invoke, invoke_valid, invoke_allowed)
                          (lease-End tool server (λ lease l. record {
                            authorized = e;
                            valid = v;
                            permitted = d;
                            served = s;
                            credential = l;
                          }))
                  ]
          ]
        ]
  ]
