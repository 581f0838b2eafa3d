-- ===== src/Lib.antt =====
-- A verification library of Aegis Flow's backend (backend/app): the definition language of
-- workflows and its import and publish checks, the compiler, the durable queue and the runner of the
-- workflow runtime, the versions and the decisions of the approval policy, the tool gateway, the
-- approval tasks, the policies on shell templates and their sandbox, and the access of accounts to
-- projects, and the egress policy.
--
-- The parts and how they meet. A workflow is written in the definition language
-- (backend/app/workflows/dsl.py). It is imported from YAML with an analysis of what it needs
-- (yaml_io.py), which the publish gate reads (publish_gate.py). A published workflow is compiled
-- to a graph (backend/app/workflow_runtime/compiler.py). A run of it is a row
-- (sqlalchemy_store.py) beside a row of the durable queue, which a worker claims, runs and settles
-- (background.py) with the runner (runner.py). An action of a run asks the approval policy
-- (backend/app/policy_center/runtime.py), which is the published one of its versions
-- (policy_center/sqlalchemy_store.py); a tool is called through the gateway
-- (backend/app/tool_gateway/service.py), which asks the policy too; a shell template is held to the image policy
-- (backend/app/execution/shell_policy.py) and runs under the sandbox (shell_runner.py). An action
-- that needs an approval waits for a task to be decided (backend/app/runtime_approvals). Access to
-- projects is decided in backend/app/iam/access.py. A URL that the platform is to call is checked by
-- the egress policy (backend/app/security/egress_policy.py), on which the plan of its way out is built
-- (egress_proxy.py).
--
-- The files, and the code each models:
-- - Base and its children: shared names; lists with native lengths and membership by recursion;
--   texts as code points; sorted sets; dicts; decimals; errors as values (Results); rows of a table
--   (Rows).
-- - Workflows/Types, Workflows/Validators: the models of dsl.py and the validators of a node and
--   an edge.
-- - Workflows/Graph: WorkflowDefinition.validate_graph, with _validate_condition_edge and
--   _validate_reachability; its children hold the search (Search), the index of the nodes (Index),
--   the outgoing edges (Outgoing), the edges (Edges), what is accepted (Accepts, Valid) and what is
--   reported (Errors).
-- - Workflows/Impact, Workflows/Spans: permission_impact and build_trace_span_plan of dsl.py.
-- - Workflows/YamlIo: yaml_io.py: the import, the missing references and the difference of
--   versions.
-- - Workflows/PublishGate: evaluate_workflow_publish_gate.
-- - WorkflowRuntime/Compiler: compile_workflow_version; the builder of LangGraph is the list of
--   the calls on it.
-- - WorkflowRuntime/Runs, WorkflowRuntime/Queue: the methods of SqlAlchemyWorkflowRunStore on runs
--   and on queue rows. A table is a list of rows and a method takes the rows and returns them
--   changed, or an error. Runs/Cancel is on the cancellation of runs, Queue/Claim on the claim,
--   Queue/Sound on what each write keeps, Queue/Reconcile on reconcile_stale_queue_items (its child
--   Settles on what that leaves), Queue/Steps on sequences of methods as a step relation.
-- - WorkflowRuntime/Worker: process_next_queue_item of WorkflowRunWorker and the methods it calls;
--   Releases is on the row, Buries on the run of a dead letter.
-- - WorkflowRuntime/Runner: run, run_existing and resume of WorkflowRuntimeRunner, with _execute_run
--   and the checks of a version, a node and a checkpoint. The graph is an argument from tables to
--   tables, so that what other requests write while it runs is part of it. Ends is on the writes,
--   Existing on run_existing, Cancels on requests to cancel, Resumes on resume, Work on the worker
--   with the runner.
-- - PolicyCenter: _evaluate_policy, _decision_from_rule and _rule_matches_request, with the match
--   of a rule in Matching and the decision in Decisions.
-- - PolicyCenter/Validation: _validate_approval_policy of policy_center/sqlalchemy_store.py and the
--   summary of the surfaces; Accepts is on what passes.
-- - PolicyCenter/Versions: the methods of SqlAlchemyPolicyCenterStore on versions, from rows to rows.
--   Published is on publication and rollback, Invariant and Steps on sequences of methods.
-- - ToolGateway: the rows of tool_gateway/sqlalchemy_store.py, the audit trail and the calls that were
--   made, as one record. Service holds the service's collaborators and the helpers of service.py,
--   Invoke and Resume its two methods, split where the code makes a check, and Decide the decision
--   route of api/routes/tool_gateway.py. Ends and ResumeEnds say how the methods end; Calls, Records,
--   Approvals and Policies what they call and leave; Links, Accounts, Growth and Steps are on
--   sequences of requests.
-- - Execution/Sandbox: validate_policy, validate_mount and build_docker_run_command of
--   shell_runner.py.
-- - Execution/ShellPolicy: validate_shell_template_policy and what it calls in shell_policy.py.
-- - IamAccess: ProjectAccessService.
-- - RuntimeApprovals: the task store of runtime_approvals/sqlalchemy_store.py and
--   decide_runtime_approval of api/routes/runtime_approvals.py.
-- - Security/EgressPolicy: egress_policy.py; Hosts is on the allowlist and on single addresses, Targets
--   on what passes, Passes on when a URL passes.
-- - Security/EgressProxy: egress_proxy.py; Routes is on the proxy and the network, Plans on the plan.
-- - Examples and its children: concrete workflows, queues and policies, tests and instances.
--
-- Fuel: the search for the reachable nodes takes as fuel the number of the nodes, each of which
-- enters the frontier once, and a workflow has an answer whatever its edges are. No other
-- definition has fuel.
--
-- Conventions: an id, a UUID or an enumerated text that is open is a String; a closed Literal is a
-- data type; a time is a number of seconds, and the reading of the clock is an argument; a text
-- that is cut to a width is kept as its code points; `lower` folds the letters of ASCII.
-- `redact_sensitive_text` and `_sanitize_runtime_json`, which are regular expressions over texts,
-- the YAML loader, the reading of a document's fields, the comparison of two nodes, the graph of a
-- run, the store of workflow versions, the registry of tools, jsonschema and the client of MCP servers
-- are arguments of the definitions that use them, and so are urllib, ipaddress, the encoding of host
-- names and the resolver of the system for the egress policy, and the ids and times that a session gives.
--
-- Not modelled: the routes of the HTTP interface, the database schema and its migrations, the
-- settings, the profiles of egress proxies, the nodes of a graph, the gateways to models and to containers, the registry of tools,
-- knowledge and retrieval, observability, and the web client. They are requests, SQL, network
-- calls and views around the parts above.
pub mod Base
pub mod Workflows
pub mod WorkflowRuntime
pub mod PolicyCenter
pub mod ToolGateway
pub mod IamAccess
pub mod RuntimeApprovals
pub mod Execution
pub mod Security
pub mod Examples
