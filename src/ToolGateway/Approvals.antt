-- ===== src/ToolGateway/Approvals.antt =====
-- An approval leads to one call of its tool, while it is live.
use aegis_flow.Base.{
  ℕ, String, true, Option, some, List, [], ◌∷◌, ◌++◌, any, any_elim, ◌≡◌, refl, subst, ◌⊎◌, inl,
  inr, arith, Result-cases, ok, All_in, eq_iff,
}
use aegis_flow.Base.Rows.{find_row_sound, modify-total, modify-row, find_row-modify}
use aegis_flow.ToolGateway.{
  resumed, AuthorizedTool, McpServerCredential, Invocation, ToolApprovalTask, McpToolCall, Gateway,
  GatewayError, StatusUpdate, no_result_found, is_invocation, is_tool_task, with_status, as_resumed,
  update_invocation_status, get_tool_approval_task, mark_tool_approval_resumed, audit_invocation,
  audit_approval,
}
use aegis_flow.ToolGateway.Service.{SecretLease, ToolGatewayService, Fresh, Invoked, tool_call}
use aegis_flow.ToolGateway.Resume.{
  refuse_resume, finish_resume, resume_call, expire, resume_approval,
}
use aegis_flow.ToolGateway.ResumeEnds.{
  Live, StillCallable, ResumeEnd, turned_away, expires, refused, calls, resume-ResumeEnd,
}
use aegis_flow.ToolGateway.Links.{HasInvocation, Linked}

-- An update of an invocation that is there succeeds.
pub update-total :
    (project_id id actor_id : String) (u : StatusUpdate) (rows : List Invocation)
    → any (is_invocation project_id id) rows ≡ true
    → (r : Invocation × List Invocation) × (update_invocation_status project_id id actor_id u rows
        ≡ ok r)
unfolding update_invocation_status
update-total project_id id actor_id u rows h =
    let (i, m, q) = any_elim (is_invocation project_id id) rows h in
    modify-total no_result_found (is_invocation project_id id) (with_status actor_id u) rows i m q

-- So does the mark of a task that is found, and the task found after it is resumed.
pub mark-total :
    (project_id id actor_id : String) (now : ℕ) (tasks : List ToolApprovalTask)
    (task : ToolApprovalTask)
    → get_tool_approval_task project_id id tasks ≡ some task
    → (t : ToolApprovalTask) × ((after : List ToolApprovalTask) × ((mark_tool_approval_resumed
              project_id id actor_id now tasks
            ≡ ok (t, after))
          × ((get_tool_approval_task project_id id after ≡ some t) × (t.status ≡ resumed))))
unfolding mark_tool_approval_resumed get_tool_approval_task
mark-total project_id id actor_id now tasks task h =
    let p = is_tool_task project_id id in
    let f = as_resumed actor_id now in
    let (m, q) = find_row_sound p tasks task h in
    let ((t, after), e) = modify-total no_result_found p f tasks task m q in
    let (b, (_, (_, (row, _)))) = modify-row no_result_found p f tasks t after e in
    (
      t,
      (after, (e, (find_row-modify no_result_found p f tasks t after (λ x. refl) e, rw row refl))),
    )

-- The task of the id is there and resumed.
abbrev pub Resumed : String → String → Gateway → Type 0
Resumed project_id id g =
    (t : ToolApprovalTask) × ((get_tool_approval_task project_id id g.approval_tasks ≡ some t)
      × (t.status ≡ resumed))

pub found-own :
    (project_id id : String) (tasks : List ToolApprovalTask) (task : ToolApprovalTask)
    → get_tool_approval_task project_id id tasks ≡ some task
    → (task.project_id ≡ project_id) × (task.id ≡ id)
unfolding get_tool_approval_task
found-own project_id id tasks task h =
    let (m, q) = find_row_sound (is_tool_task project_id id) tasks task h in
    ground (arith, q, eq_iff task.project_id project_id, eq_iff task.id id)

pub found-Linked :
    (project_id id : String) (g : Gateway) (task : ToolApprovalTask)
    → get_tool_approval_task project_id id g.approval_tasks ≡ some task
    → Linked g
    → any (is_invocation project_id task.invocation_id) g.invocations ≡ true
unfolding get_tool_approval_task
found-Linked project_id id g task h linked =
    let (m, q) = find_row_sound (is_tool_task project_id id) g.approval_tasks task h in
    let own = All_in (HasInvocation g.invocations) task g.approval_tasks linked m in
    subst (λ p. any (is_invocation p task.invocation_id) g.invocations ≡ true)
      (found-own project_id id g.approval_tasks task h).0 own

module _ (service : ToolGatewayService) (project_id actor_id : String) (fresh : Fresh) where
  refuse-calls :
      (task : ToolApprovalTask) (u : StatusUpdate) (error : GatewayError) (g : Gateway)
      → (refuse_resume service project_id actor_id fresh task u error g).1.calls ≡ g.calls
  unfolding refuse_resume audit_invocation
  refuse-calls task u error g =
      elim (Result-cases
        (update_invocation_status project_id task.invocation_id actor_id u g.invocations)) [
          | inl (r, e) ↦ simp (e, refuse_resume) refl
          | inr (raised, e) ↦ simp (e, refuse_resume) refl
        ]

  expire-calls :
      (task : ToolApprovalTask) (g : Gateway)
      → (expire service project_id actor_id fresh task g).1.calls ≡ g.calls
  unfolding expire audit_approval
  expire-calls task g = grind arith

  finish-calls :
      (task : ToolApprovalTask) (server : McpServerCredential) (lease : Option SecretLease)
      (call : McpToolCall) (g : Gateway)
      → (finish_resume service project_id actor_id fresh task server lease call g).1.calls ≡ g.calls
  unfolding finish_resume audit_invocation audit_approval
  finish-calls task server lease call g = grind arith

  abbrev pub ResumeCalls : String → Gateway → Gateway → Type 0
  ResumeCalls id g after =
      (task : ToolApprovalTask) × ((tool : AuthorizedTool) × ((server : McpServerCredential)
          × ((lease : Option SecretLease) × (Live project_id id fresh.now g task
                × (StillCallable service project_id task tool server lease
                    × (after.calls
                        ≡ g.calls
                          ++ tool_call service server tool task.request_payload lease ∷ []))))))

  End-calls :
      (id : String) (g : Gateway) (r : Invoked)
      → ResumeEnd service project_id actor_id fresh id g r
      → (r.1.calls ≡ g.calls) ⊎ ResumeCalls id g r.1
  unfolding resume_call
  End-calls id g _ (turned_away error) = inl refl
  End-calls id g _ (expires task f) = inl (expire-calls task g)
  End-calls id g _ (refused task u error live) = inl (refuse-calls task u error g)
  End-calls id g _ (calls task tool server lease live c) =
      inr (task, (tool, (server, (lease, (live, (c, finish-calls task server lease _ _))))))

  -- A resumption calls no tool, or it makes one call, with the arguments of the request that waited: of a
  -- task that is approved and not yet expired, where the tool is still authorized for the request, the
  -- arguments still fit its schema, the policy does not deny it now, and its server and the lease are there.
  pub resume_calls :
      (id : String) (g : Gateway)
      → ((resume_approval service project_id actor_id fresh id g).1.calls ≡ g.calls)
        ⊎ ResumeCalls id g (resume_approval service project_id actor_id fresh id g).1
  resume_calls id g = End-calls id g _ (resume-ResumeEnd service project_id actor_id fresh id g)
