-- ===== src/ToolGateway/ResumeEnds.antt =====
-- The ways the resumption of an approved invocation ends: it is turned away, the approval has expired,
-- the invocation is refused again, or its tool is called.
use aegis_flow.Base.{
  ℕ, String, true, false, Option, none, some, leb, ◌==◌, ◌≡◌, ◌≢◌, arith, Bool-cases, Option-cases,
  inl, inr, eq_iff, err,
}
use aegis_flow.PolicyCenter.{denied}
use aegis_flow.ToolGateway.{
  ToolApprovalStatus, ToolApprovalTask, AuthorizedTool, McpServerCredential, Gateway, GatewayError,
  StatusUpdate, get_tool_approval_task,
}
use aegis_flow.ToolGateway.Service.{
  SecretLease, ToolGatewayService, Fresh, Invoked, resolve_authorized_tool,
  evaluate_approval_policy,
}
use aegis_flow.ToolGateway.Ends.{Leased, public, leased, Decision-cases}
use aegis_flow.ToolGateway.Resume.{
  is_resumed, is_approved, refuse_resume, resume_call, resume_lease, resume_allowed, resume_valid,
  resume_live, expire, resume_approval,
}

-- A task that is approved, and not expired at `now`.
pub record Live (project_id approval_task_id : String) (now : ℕ) (g : Gateway)
    (task : ToolApprovalTask) : Type 0 where
  pub found : get_tool_approval_task project_id approval_task_id g.approval_tasks ≡ some task
  pub is_approved_task : task.status ≡ ToolApprovalStatus.approved
  pub unexpired : leb task.expires_at now ≡ false

-- What the call of the task's tool needs once more.
pub record StillCallable (service : ToolGatewayService) (project_id : String)
    (task : ToolApprovalTask) (tool : AuthorizedTool) (server : McpServerCredential)
    (lease : Option SecretLease) : Type 0 where
  pub authorized : resolve_authorized_tool service project_id task.request_payload ≡ some tool
  pub valid : service.validation_error tool.input_schema task.request_payload.arguments ≡ none
  pub undenied : (evaluate_approval_policy service task.request_payload tool).decision ≢ denied
  pub served : service.get_mcp_server_credential_for_tool project_id tool.tool_ref ≡ some server
  pub credential : Leased service project_id tool server lease

is_approved_sound :
    (s : ToolApprovalStatus) → is_approved s ≡ true → s ≡ ToolApprovalStatus.approved
is_approved_sound s h = ground arith

module _ (service : ToolGatewayService) (project_id actor_id : String) (fresh : Fresh)
    (approval_task_id : String) (g : Gateway) where
  pub data ResumeEnd : Invoked → Type 0 where
    turned_away : (error : GatewayError) → ResumeEnd (err error, g)
    expires :
        (task : ToolApprovalTask)
        → get_tool_approval_task project_id approval_task_id g.approval_tasks ≡ some task
        → ResumeEnd (expire service project_id actor_id fresh task g)
    refused :
        (task : ToolApprovalTask) (u : StatusUpdate) (error : GatewayError)
        → Live project_id approval_task_id fresh.now g task
        → ResumeEnd (refuse_resume service project_id actor_id fresh task u error g)
    calls :
        (task : ToolApprovalTask) (tool : AuthorizedTool) (server : McpServerCredential)
        (lease : Option SecretLease)
        → Live project_id approval_task_id fresh.now g task
        → StillCallable service project_id task tool server lease
        → ResumeEnd (resume_call service project_id actor_id fresh task tool server lease g)

  lease-ResumeEnd :
      (task : ToolApprovalTask) (tool : AuthorizedTool) (server : McpServerCredential)
      → Live project_id approval_task_id fresh.now g task
      → ((lease : Option SecretLease)
          → Leased service project_id tool server lease
          → StillCallable service project_id task tool server lease)
      → ResumeEnd (resume_lease service project_id actor_id fresh task tool server g)
  unfolding resume_lease
  lease-ResumeEnd task tool server live rest = elim (Bool-cases (server.credential_ref == "")) [
    | inl e ↦
        rw (e, resume_lease)
          (calls task tool server none live
            (rest none (public ((eq_iff server.credential_ref "").0 e))))
    | inr n ↦
        let private : server.credential_ref ≢ "" =
          λ h. absurd (ground (arith, n, (eq_iff server.credential_ref "").1 h)) in
        elim (Option-cases server.credential_ref_id) [
          | inl e ↦ simp (n, e, resume_lease) (refused task _ _ live)
          | inr (credential, e) ↦
              elim (Option-cases (service.create_secret_lease project_id credential tool)) [
                | inl f ↦ simp (n, e, f, resume_lease) (refused task _ _ live)
                | inr (lease, f) ↦
                    simp (n, e, f, resume_lease)
                      (calls task tool server (some lease) live
                        (rest (some lease) (leased credential lease private e f)))
              ]
        ]
  ]

  allowed-ResumeEnd :
      (task : ToolApprovalTask) (tool : AuthorizedTool)
      → Live project_id approval_task_id fresh.now g task
      → ((server : McpServerCredential) (lease : Option SecretLease)
          → service.get_mcp_server_credential_for_tool project_id tool.tool_ref ≡ some server
          → Leased service project_id tool server lease
          → StillCallable service project_id task tool server lease)
      → ResumeEnd (resume_allowed service project_id actor_id fresh task tool g)
  unfolding resume_allowed
  allowed-ResumeEnd task tool live rest =
      elim (Option-cases (service.get_mcp_server_credential_for_tool project_id tool.tool_ref)) [
        | inl s ↦ simp (s, resume_allowed) (refused task _ _ live)
        | inr (server, s) ↦
            simp (s, resume_allowed)
              (lease-ResumeEnd task tool server live (λ lease l. rest server lease s l))
      ]

  valid-ResumeEnd :
      (task : ToolApprovalTask) (tool : AuthorizedTool)
      → Live project_id approval_task_id fresh.now g task
      → resolve_authorized_tool service project_id task.request_payload ≡ some tool
      → service.validation_error tool.input_schema task.request_payload.arguments ≡ none
      → ResumeEnd (resume_valid service project_id actor_id fresh task tool g)
  unfolding resume_valid
  valid-ResumeEnd task tool live e v =
      elim (Decision-cases (evaluate_approval_policy service task.request_payload tool).decision) [
        | inr (inl d) ↦ simp (d, resume_valid) (refused task _ _ live)
        | inr (inr d) ↦ simp (d, resume_valid) (rest (λ n. absurd (ground (arith, d, n))))
        | inl d ↦ simp (d, resume_valid) (rest (λ n. absurd (ground (arith, d, n))))
      ]
    where
      rest :
          (evaluate_approval_policy service task.request_payload tool).decision ≢ denied
          → ResumeEnd (resume_allowed service project_id actor_id fresh task tool g)
      rest d = allowed-ResumeEnd task tool live (λ server lease s l. record {
        authorized = e;
        valid = v;
        undenied = d;
        served = s;
        credential = l;
      })

  resume_live-ResumeEnd :
      (task : ToolApprovalTask)
      → Live project_id approval_task_id fresh.now g task
      → ResumeEnd (resume_live service project_id actor_id fresh task g)
  unfolding resume_live
  resume_live-ResumeEnd task live =
      elim (Option-cases (resolve_authorized_tool service project_id task.request_payload)) [
        | inl e ↦ simp (e, resume_live) (refused task _ _ live)
        | inr (tool, e) ↦
            elim (Option-cases
              (service.validation_error tool.input_schema task.request_payload.arguments)) [
                | inr (message, v) ↦ simp (e, v, resume_live) (refused task _ _ live)
                | inl v ↦ simp (e, v, resume_live) (valid-ResumeEnd task tool live e v)
              ]
      ]

  -- A resumption ends in one of the four ways, and only that of a live task calls a tool.
  pub resume-ResumeEnd :
      ResumeEnd (resume_approval service project_id actor_id fresh approval_task_id g)
  unfolding resume_approval
  resume-ResumeEnd =
      elim (Option-cases (get_tool_approval_task project_id approval_task_id g.approval_tasks)) [
        | inl e ↦ simp (e, resume_approval) (turned_away _)
        | inr (task, e) ↦ elim (Bool-cases (is_resumed task.status)) [
          | inl r ↦ simp (e, r, resume_approval) (turned_away _)
          | inr r ↦ elim (Bool-cases (is_approved task.status)) [
            | inr a ↦ simp (e, r, a, resume_approval) (turned_away _)
            | inl a ↦ elim (Bool-cases (leb task.expires_at fresh.now)) [
              | inl x ↦ simp (e, r, a, x, resume_approval) (expires task e)
              | inr x ↦
                  simp (e, r, a, x, resume_approval)
                    (resume_live-ResumeEnd task (record {
                      found = e;
                      is_approved_task = is_approved_sound task.status a;
                      unexpired = x;
                    }))
            ]
          ]
        ]
      ]
