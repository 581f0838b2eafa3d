-- ===== src/ToolGateway/Links.antt =====
-- Every approval task of a tool stands by its invocation, which no method removes.
use aegis_flow.Base.{
  String, Bool, true, Option, List, [], ◌∷◌, ◌++◌, any, any-append, ◌≡◌, refl, sym, ◌∙◌, subst, inl,
  inr, arith, Bool-cases, Result-cases, ok, All, All-map, All-append, eq_refl, >>=-eq-ok,
}
use aegis_flow.Base.Rows.{modify}
use aegis_flow.ToolGateway.{
  ToolInvocationRequest, AuthorizedTool, McpServerCredential, Invocation, ToolApprovalTask, Gateway,
  GatewayError, StatusUpdate, no_result_found, is_invocation, with_status, record_invocation,
  create_tool_approval_task, update_invocation_status, audit_invocation, audit_approval,
}
use aegis_flow.ToolGateway.Service.{SecretLease, ToolGatewayService, Fresh, Invoked, tool_call}
use aegis_flow.ToolGateway.Invoke.{
  refuse_invocation, waiting_invocation, answered_invocation, call_authorized_tool,
  request_approval, invoke,
}
use aegis_flow.ToolGateway.Ends.{End, refused, waits, calls, invoke-End}

abbrev pub HasInvocation : List Invocation → ToolApprovalTask → Type 0
HasInvocation rows t = any (is_invocation t.project_id t.invocation_id) rows ≡ true

-- The foreign key of the tasks.
abbrev pub Linked : Gateway → Type 0
Linked g = All (HasInvocation g.invocations) g.approval_tasks

-- Rows are kept where every invocation found before is found after.
abbrev pub Keeps : List Invocation → List Invocation → Type 0
Keeps rows after =
    (project_id id : String)
    → any (is_invocation project_id id) rows ≡ true
    → any (is_invocation project_id id) after ≡ true

pub Keeps-All :
    (rows after : List Invocation) (tasks : List ToolApprovalTask)
    → Keeps rows after
    → All (HasInvocation rows) tasks
    → All (HasInvocation after) tasks
Keeps-All rows after tasks k =
    All-map (HasInvocation rows) (HasInvocation after) tasks (λ t. k t.project_id t.invocation_id)

-- A write that leaves a test of the rows as it was.
any-modify :
    {A : Type 0} {E : Type 0} (q : A → Bool) (missing : E) (p : A → Bool) (f : A → A) (xs : List A)
    (a : A) (ys : List A)
    → ((x : A) → q (f x) ≡ q x)
    → modify missing p f xs ≡ ok (a, ys)
    → any q ys ≡ any q xs
unfolding modify
any-modify q missing p f [] a ys same h = cc
any-modify {A = A} q missing p f (x ∷ xs) a ys same h = elim (Bool-cases (p x)) [
  | inl t ↦
      let e : f x ∷ xs ≡ ys = ground arith in
      subst (λ zs. any q zs ≡ any q (x ∷ xs)) e (rw (same x) refl)
  | inr t ↦
      let (r, c, s) =
        >>=-eq-ok {B = A × List A} (modify missing p f xs) (λ r. ok (r.0, x ∷ r.1)) {b = (a, ys)}
          (ground arith) in
      let e : x ∷ r.1 ≡ ys = ground arith in
      let rest = any-modify q missing p f xs r.0 r.1 same c in
      subst (λ zs. any q zs ≡ any q (x ∷ xs)) e (rw rest refl)
]

pub update-Keeps :
    (project_id id actor_id : String) (u : StatusUpdate) (rows : List Invocation) (i : Invocation)
    (after : List Invocation)
    → update_invocation_status project_id id actor_id u rows ≡ ok (i, after)
    → Keeps rows after
unfolding update_invocation_status
update-Keeps project_id id actor_id u rows i after h p j found =
    any-modify (is_invocation p j) no_result_found (is_invocation project_id id)
      (with_status actor_id u) rows i after (λ x. refl) h
    ∙ found

pub record-Keeps :
    (i : Invocation) (g after : Gateway)
    → record_invocation i g ≡ ok after
    → Keeps g.invocations after.invocations
      × ((any (is_invocation i.project_id i.id) after.invocations ≡ true)
          × (after.approval_tasks ≡ g.approval_tasks))
unfolding record_invocation
record-Keeps i g after h =
    let e : after ≡ record g { invocations = g.invocations ++ i ∷ [] } = ground arith in
    let own : any (is_invocation i.project_id i.id) (i ∷ []) ≡ true =
      ground (arith, eq_refl i.project_id, eq_refl i.id) in
    subst
      (λ (a : Gateway).
        Keeps g.invocations a.invocations
        × ((any (is_invocation i.project_id i.id) a.invocations ≡ true)
            × (a.approval_tasks ≡ g.approval_tasks)))
      (sym e)
      (
        λ p j f. ground (arith, f, any-append (is_invocation p j) g.invocations (i ∷ [])),
        (
          ground (arith, own, any-append (is_invocation i.project_id i.id) g.invocations (i ∷ [])),
          refl,
        ),
      )

record-Linked :
    (i : Invocation) (g after : Gateway)
    → Linked g
    → record_invocation i g ≡ ok after
    → Linked after
record-Linked i g after linked h =
    let (k, (_, t)) = record-Keeps i g after h in
    subst (All (HasInvocation after.invocations)) (sym t)
      (Keeps-All g.invocations after.invocations g.approval_tasks k linked)

module _ (service : ToolGatewayService) (project_id actor_id : String) (fresh : Fresh)
    (request : ToolInvocationRequest) where
  refuse-Linked :
      (i : Invocation) (error : GatewayError) (g : Gateway)
      → Linked g
      → Linked (refuse_invocation service project_id actor_id fresh request i error g).1
  unfolding refuse_invocation audit_invocation
  refuse-Linked i error g linked = elim (Result-cases (record_invocation i g)) [
    | inl (after, h) ↦ simp (h, refuse_invocation) (record-Linked i g after linked h)
    | inr (raised, h) ↦ simp (h, refuse_invocation) linked
  ]

  waits-Linked :
      (tool : AuthorizedTool) (g : Gateway)
      → Linked g
      → Linked (request_approval service project_id actor_id fresh request tool g).1
  unfolding request_approval audit_invocation audit_approval create_tool_approval_task
  waits-Linked tool g linked =
      let i = waiting_invocation service project_id actor_id fresh request tool in
      elim (Result-cases (record_invocation i g)) [
        | inr (raised, h) ↦ simp (h, request_approval) linked
        | inl (after, h) ↦
            let own = (record-Keeps i g after h).1.0 in
            simp (h, request_approval)
              (All-append (HasInvocation after.invocations) after.approval_tasks (_ ∷ [])
                (record-Linked i g after linked h) (own, tt))
      ]

  calls-Linked :
      (tool : AuthorizedTool) (server : McpServerCredential) (lease : Option SecretLease)
      (g : Gateway)
      → Linked g
      → Linked
          (call_authorized_tool service project_id actor_id fresh request tool server lease g).1
  unfolding call_authorized_tool audit_invocation
  calls-Linked tool server lease g linked =
      let made : Gateway = record g {
        calls = g.calls ++ tool_call service server tool request lease ∷ [];
      } in
      elim (Result-cases (service.call_tool (tool_call service server tool request lease))) [
        | inr (raised, e) ↦ simp (e, call_authorized_tool) (refuse-Linked _ _ made linked)
        | inl (r, e) ↦
            let i =
              answered_invocation service project_id actor_id fresh request tool server lease r in
            elim (Result-cases (record_invocation i made)) [
              | inl (after, h) ↦
                  simp (e, h, call_authorized_tool) (record-Linked i made after linked h)
              | inr (raised, h) ↦ simp (e, h, call_authorized_tool) linked
            ]
      ]

  End-Linked :
      (g : Gateway) (r : Invoked)
      → Linked g
      → End service project_id actor_id fresh request g r
      → Linked r.1
  End-Linked g _ linked (refused i error d) = refuse-Linked i error g linked
  End-Linked g _ linked (waits tool e d) = waits-Linked tool g linked
  End-Linked g _ linked (calls tool server lease c) = calls-Linked tool server lease g linked

  pub invoke-Linked :
      (g : Gateway) → Linked g → Linked (invoke service project_id actor_id fresh request g).1
  invoke-Linked g linked =
      End-Linked g _ linked (invoke-End service project_id actor_id fresh request g)
