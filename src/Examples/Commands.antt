-- ===== src/Examples/Commands.antt =====
-- The theorems on sandboxes and shell templates at a safe policy and an admitted template.
use aegis_flow.Base.{String, true, false, List, [], ◌∷◌, ◌++◌, ◌≡◌, refl, ok}
use aegis_flow.Base.Texts.{text_eq, starts_with, contains, lower, lower_code}
use aegis_flow.Execution.Sandbox.{
  pos, DockerResourceLimits, DockerMount, ScriptTemplateInvocation, DockerSandboxPolicy,
  validate_mount, validate_mounts, validate_policy, run_options, build_docker_run_command,
}
use aegis_flow.Execution.ShellPolicy.{ShellImagePolicy, ShellTemplatePolicyInput}

abbrev limits : DockerResourceLimits
limits = record {
  memory = "256m";
  memory_swap = "256m";
  cpus = "0.5";
  pids_limit = pos 64;
  nofile = "256:256";
}

abbrev workspace : DockerMount
workspace = record {
  source = "D:\\Projects\\runtime\\shell-runs\\r1";
  target = "/work";
  readonly = true;
}

abbrev sandbox : DockerSandboxPolicy
sandbox = record {
  network_mode = "none";
  read_only = true;
  tmpfs = "/tmp:rw,nosuid,nodev,size=64m";
  user = "10000:10000";
  cap_drop = "ALL" ∷ [];
  cap_add = [];
  security_opt = "no-new-privileges=true" ∷ [];
  privileged = false;
  mounts = workspace ∷ [];
  resource_limits = limits;
}

abbrev invocation : ScriptTemplateInvocation
invocation = record {
  image_ref = "redis:7-alpine";
  entrypoint = "redis-cli";
  argv = "PING" ∷ [];
  secrets = [];
}

abbrev command : List String
command = run_options sandbox ++ ("--entrypoint" ∷ "redis-cli" ∷ "redis:7-alpine" ∷ "PING" ∷ [])

builds_command : build_docker_run_command invocation sandbox ≡ ok command
unfolding build_docker_run_command validate_policy validate_mounts validate_mount text_eq
    starts_with contains lower lower_code
builds_command = refl

abbrev template : ShellTemplatePolicyInput
template = record {
  template_ref = "restart";
  template_version = 2;
  risk_level = "high";
  environment_key = "Prod";
  image_ref = "redis:7-alpine";
  image_digest = "sha256:00";
  entrypoint = "redis-cli";
  argv_template = "PING" ∷ [];
  image_registry_digest = "sha256:00";
  image_admission_status = "would_reject";
}

abbrev images : ShellImagePolicy
images = record { allowlist = "redis:7-alpine" ∷ []; require_digest = true; forbid_latest = true }

abbrev mode : String
mode = "enforce"
