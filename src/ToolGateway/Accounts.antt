-- ===== src/ToolGateway/Accounts.antt =====
-- Each call of a tool, and each task that may still lead to one, has an invocation of its own: what a
-- method does to the two sides of this account.
use aegis_flow.Base.{
  ℕ, ◌+◌, ◌≤◌, String, Bool, true, not, Option, some, List, [], ◌∷◌, ◌++◌, any, count, length,
  length-append, ◌≡◌, refl, sym, subst, inl, inr, arith, Result-cases, ok, All,
}
use aegis_flow.Base.Texts.{Text}
use aegis_flow.Base.Rows.{modify, modify-All, modify-count, modify-length}
use aegis_flow.ToolGateway.{
  ToolApprovalStatus, ToolApprovalDecision, McpServerCredential, Invocation, ToolApprovalTask,
  McpToolCall, Gateway, GatewayError, StatusUpdate, no_result_found, is_invocation, is_tool_task,
  with_status, with_decision, as_resumed, update_invocation_status, get_tool_approval_task,
  decide_tool_approval_task, mark_tool_approval_resumed, audit_invocation, audit_approval,
}
use aegis_flow.ToolGateway.Service.{SecretLease, ToolGatewayService, Fresh}
use aegis_flow.ToolGateway.Resume.{
  is_resumed, expiry, failed_call, answered_call, refuse_resume, finish_resume, expire,
}
use aegis_flow.ToolGateway.Approvals.{update-total, mark-total}
use aegis_flow.ToolGateway.Decide.{is_undecided}
use aegis_flow.ToolGateway.Links.{HasInvocation, Linked, Keeps, Keeps-All, update-Keeps}

-- The task may still lead to a call.
abbrev pub is_open : ToolApprovalTask → Bool
is_open t = not (is_resumed t.status)

-- Each call and each task that may still lead to one has a row of its own.
abbrev pub Accounted : Gateway → Type 0
Accounted g = length g.calls + count is_open g.approval_tasks ≤ length g.invocations

update-length :
    (project_id id actor_id : String) (u : StatusUpdate) (rows : List Invocation) (i : Invocation)
    (after : List Invocation)
    → update_invocation_status project_id id actor_id u rows ≡ ok (i, after)
    → length after ≡ length rows
unfolding update_invocation_status
update-length project_id id actor_id u rows i after h =
    modify-length no_result_found (is_invocation project_id id) (with_status actor_id u) rows i
      after h

-- The invocations are written in place, and the calls and the tasks stay.
pub record Rewritten (g after : Gateway) : Type 0 where
  pub keeps : Keeps g.invocations after.invocations
  pub same_length : length after.invocations ≡ length g.invocations
  pub same_tasks : after.approval_tasks ≡ g.approval_tasks
  pub same_calls : after.calls ≡ g.calls

pub Rewritten-refl : (g : Gateway) → Rewritten g g
Rewritten-refl g = record {
  keeps = λ p i f. f;
  same_length = refl;
  same_tasks = refl;
  same_calls = refl;
}

pub update-Rewritten :
    (project_id id actor_id : String) (u : StatusUpdate) (g : Gateway) (i : Invocation)
    (rows : List Invocation)
    → update_invocation_status project_id id actor_id u g.invocations ≡ ok (i, rows)
    → Rewritten g (record g { invocations = rows })
update-Rewritten project_id id actor_id u g i rows h = record {
  keeps = update-Keeps project_id id actor_id u g.invocations i rows h;
  same_length = update-length project_id id actor_id u g.invocations i rows h;
  same_tasks = refl;
  same_calls = refl;
}

pub Rewritten-Linked : (g after : Gateway) → Rewritten g after → Linked g → Linked after
Rewritten-Linked g after r linked =
    subst (All (HasInvocation after.invocations)) (sym r.same_tasks)
      (Keeps-All g.invocations after.invocations g.approval_tasks r.keeps linked)

pub Rewritten-Accounted : (g after : Gateway) → Rewritten g after → Accounted g → Accounted after
Rewritten-Accounted g after r h = rw (r.same_calls, r.same_tasks, r.same_length) h

module _ (service : ToolGatewayService) (project_id actor_id : String) (fresh : Fresh) where
  pub refuse-Rewritten :
      (task : ToolApprovalTask) (u : StatusUpdate) (error : GatewayError) (g : Gateway)
      → Rewritten g (refuse_resume service project_id actor_id fresh task u error g).1
  unfolding refuse_resume audit_invocation
  refuse-Rewritten task u error g =
      elim (Result-cases
        (update_invocation_status project_id task.invocation_id actor_id u g.invocations)) [
          | inl ((i, rows), e) ↦
              let r = update-Rewritten project_id task.invocation_id actor_id u g i rows e in
              simp (e, refuse_resume)
                (record {
                  keeps = r.keeps;
                  same_length = r.same_length;
                  same_tasks = r.same_tasks;
                  same_calls = r.same_calls;
                })
          | inr (raised, e) ↦ simp (e, refuse_resume) (Rewritten-refl g)
        ]

  pub expire-Rewritten :
      (task : ToolApprovalTask) (g : Gateway)
      → Rewritten g (expire service project_id actor_id fresh task g).1
  unfolding expire audit_approval
  expire-Rewritten task g =
      elim (Result-cases
        (update_invocation_status project_id task.invocation_id actor_id expiry g.invocations)) [
          | inl ((i, rows), e) ↦
              let r = update-Rewritten project_id task.invocation_id actor_id expiry g i rows e in
              simp (e, expire)
                (record {
                  keeps = r.keeps;
                  same_length = r.same_length;
                  same_tasks = r.same_tasks;
                  same_calls = r.same_calls;
                })
          | inr (raised, e) ↦ simp (e, expire) (Rewritten-refl g)
        ]

-- The write of a task that keeps its project and its invocation keeps every link.
tasks-linked :
    (rows : List Invocation) (project_id id : String) (f : ToolApprovalTask → ToolApprovalTask)
    (tasks : List ToolApprovalTask) (t : ToolApprovalTask) (after : List ToolApprovalTask)
    → ((x : ToolApprovalTask) → HasInvocation rows x → HasInvocation rows (f x))
    → modify no_result_found (is_tool_task project_id id) f tasks ≡ ok (t, after)
    → All (HasInvocation rows) tasks
    → All (HasInvocation rows) after
tasks-linked rows project_id id f tasks t after keeps h linked =
    modify-All (HasInvocation rows) no_result_found (is_tool_task project_id id) f tasks t after
      (λ x _ l. keeps x l) linked h

-- A mark closes the task that is found.
mark-closes :
    (rows : List Invocation) (project_id id actor_id : String) (now : ℕ)
    (tasks : List ToolApprovalTask) (task t : ToolApprovalTask) (after : List ToolApprovalTask)
    → get_tool_approval_task project_id id tasks ≡ some task
    → task.status ≡ ToolApprovalStatus.approved
    → mark_tool_approval_resumed project_id id actor_id now tasks ≡ ok (t, after)
    → All (HasInvocation rows) tasks
    → All (HasInvocation rows) after × (count is_open after + 1 ≡ count is_open tasks)
unfolding get_tool_approval_task mark_tool_approval_resumed
mark-closes rows project_id id actor_id now tasks task t after found approved h linked =
    let p = is_tool_task project_id id in
    let f = as_resumed actor_id now in
    let open_before : is_open task ≡ true = ground arith in
    let counted = modify-count is_open no_result_found p f tasks task t after found h in
    (
      tasks-linked rows project_id id f tasks t after (λ x l. l) h linked,
      ground (arith, counted, open_before),
    )

-- A decision on a pending task leaves it open.
pub decision-stays :
    (rows : List Invocation) (project_id id actor_id : String) (decision : ToolApprovalDecision)
    (reason : Text) (now : ℕ) (tasks : List ToolApprovalTask) (task t : ToolApprovalTask)
    (after : List ToolApprovalTask)
    → get_tool_approval_task project_id id tasks ≡ some task
    → is_undecided task.status ≡ true
    → decide_tool_approval_task project_id id actor_id decision reason now tasks ≡ ok (t, after)
    → All (HasInvocation rows) tasks
    → All (HasInvocation rows) after × (count is_open after ≡ count is_open tasks)
unfolding get_tool_approval_task decide_tool_approval_task
decision-stays rows project_id id actor_id decision reason now tasks task t after found undecided h
      linked =
    let p = is_tool_task project_id id in
    let f = with_decision actor_id decision reason now in
    let open_before : is_open task ≡ true = ground arith in
    let open_after : is_open (f task) ≡ true = ground arith in
    let counted = modify-count is_open no_result_found p f tasks task t after found h in
    (
      tasks-linked rows project_id id f tasks t after (λ x l. l) h linked,
      ground (arith, counted, open_before, open_after),
    )

-- The two invariants, of the tables they are about.
abbrev pub Sound : List Invocation → List ToolApprovalTask → List McpToolCall → Type 0
Sound rows tasks calls =
    All (HasInvocation rows) tasks × (length calls + count is_open tasks ≤ length rows)

-- A call that closes its task, on a table whose invocations are written in place.
called-Sound :
    (g : Gateway) (rows : List Invocation) (tasks : List ToolApprovalTask) (call : McpToolCall)
    (project_id id actor_id : String) (u : StatusUpdate) (i : Invocation)
    → update_invocation_status project_id id actor_id u g.invocations ≡ ok (i, rows)
    → All (HasInvocation g.invocations) tasks
      × (count is_open tasks + 1 ≡ count is_open g.approval_tasks)
    → Accounted g
    → Sound rows tasks (g.calls ++ call ∷ [])
called-Sound g rows tasks call project_id id actor_id u i h closed accounted =
    let r = update-Rewritten project_id id actor_id u g i rows h in
    (
      Keeps-All g.invocations rows tasks r.keeps closed.0,
      omega (arith, accounted, closed.1, r.same_length, length-append g.calls (call ∷ [])),
    )

module _ (service : ToolGatewayService) (project_id actor_id : String) (fresh : Fresh) where
  pub finish-Sound :
      (task : ToolApprovalTask) (server : McpServerCredential) (lease : Option SecretLease)
      (call : McpToolCall) (g : Gateway)
      → get_tool_approval_task project_id task.id g.approval_tasks ≡ some task
      → task.status ≡ ToolApprovalStatus.approved
      → any (is_invocation project_id task.invocation_id) g.invocations ≡ true
      → Linked g
      → Accounted g
      → (let after =
            (finish_resume service project_id actor_id fresh task server lease call
              (record g { calls = g.calls ++ call ∷ [] })).1 in
          Sound after.invocations after.approval_tasks after.calls)
  unfolding finish_resume audit_invocation audit_approval
  finish-Sound task server lease call g found approved has linked accounted =
      let (t, (tasks, (m, _))) =
        mark-total project_id task.id actor_id fresh.now g.approval_tasks task found in
      let closed =
        mark-closes g.invocations project_id task.id actor_id fresh.now g.approval_tasks task t
          tasks found approved m linked in
      elim (Result-cases (service.call_tool call)) [
        | inl (r, e) ↦
            let u = answered_call service project_id actor_id fresh server lease r in
            let ((i, rows), v) =
              update-total project_id task.invocation_id actor_id u g.invocations has in
            simp (e, v, m, finish_resume)
              (called-Sound g rows tasks call project_id task.invocation_id actor_id u i v closed
                accounted)
        | inr (raised, e) ↦
            let u = failed_call service project_id actor_id fresh server lease raised in
            let ((i, rows), v) =
              update-total project_id task.invocation_id actor_id u g.invocations has in
            simp (e, v, m, finish_resume)
              (called-Sound g rows tasks call project_id task.invocation_id actor_id u i v closed
                accounted)
      ]
