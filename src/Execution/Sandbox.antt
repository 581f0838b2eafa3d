-- ===== src/Execution/Sandbox.antt =====
-- backend/app/execution/shell_runner.py: the command that runs a container, and what a sandbox policy
-- must say before it is built. `lower` folds the letters of ASCII.
pub mod Policy
use aegis_flow.Base.{
  ℕ, zero, suc, String, str_append, Bool, true, false, not, ◌&&◌, ◌||◌, List, [], ◌∷◌, ◌++◌, map,
  ◌==◌, Result, ok, err, ◌>>=◌, ◌>>◌, raise_if, if◌then◌else◌, is_empty, any, elem, eqb,
}
use aegis_flow.Base.Texts.{Text, codes, text_eq, starts_with, contains, lower}
use aegis_flow.Base.Decimals.{show}

-- An `int`.
pub data ℤ : Type 0 where
  pos negsuc : ℕ → ℤ

abbrev show_int : ℤ → String
show_int (pos n) = show n
show_int (negsuc n) = str_append "-" (show (suc n))

-- `n > 0`
abbrev pub is_positive : ℤ → Bool
is_positive (pos zero) = false
is_positive (pos (suc _)) = true
is_positive (negsuc _) = false

pub record DockerResourceLimits : Type 0 where
  pub memory : String
  pub memory_swap : String
  pub cpus : String
  pub pids_limit : ℤ
  pub nofile : String

pub record DockerMount : Type 0 where
  pub source : String
  pub target : String
  pub readonly : Bool

pub record SecretReference : Type 0 where
  pub name : String
  pub credential_ref : String

pub record ScriptTemplateInvocation : Type 0 where
  pub image_ref : String
  pub entrypoint : String
  pub argv : List String
  pub secrets : List SecretReference

pub record DockerSandboxPolicy : Type 0 where
  pub network_mode : String
  pub read_only : Bool
  pub tmpfs : String
  pub user : String
  pub cap_drop : List String
  pub cap_add : List String
  pub security_opt : List String
  pub privileged : Bool
  pub mounts : List DockerMount
  pub resource_limits : DockerResourceLimits

pub data PolicyError : Type 0 where
  privileged_container bad_network root_user capabilities_kept capabilities_added : PolicyError
  new_privileges no_pids_limit no_memory_limit writable_mount sensitive_mount outside_workspace :
      PolicyError

-- `SENSITIVE_MOUNT_FRAGMENTS`
abbrev pub sensitive_mount_fragments : List String
sensitive_mount_fragments =
    "/var/run/docker.sock" ∷ "\\var\\run\\docker.sock" ∷ ".ssh" ∷ "/.ssh" ∷ "\\.ssh" ∷ "/root"
    ∷ "\\root" ∷ "/users/administrator" ∷ "\\users\\administrator" ∷ "/programdata/docker"
    ∷ "\\programdata\\docker" ∷ ".kube" ∷ "/.kube" ∷ "\\.kube" ∷ ".aws" ∷ "/.aws" ∷ "\\.aws"
    ∷ ".azure" ∷ "/.azure" ∷ "\\.azure" ∷ []

-- `source.replace("\\", "/").lower()`
abbrev pub normalized : String → Text
normalized source = lower (map (λ c. if eqb c 92 then 47 else c) (codes source))

-- `text.split(":", maxsplit=1)[0]`
abbrev pub before_colon : Text → Text
before_colon [] = []
before_colon (c ∷ cs) = let rest = before_colon cs in if eqb c 58 then [] else c ∷ rest

unfoldable pub validate_mount : DockerMount → Result PolicyError (Unit {0})
validate_mount m = do
  raise_if (not m.readonly) writable_mount
  raise_if (any (λ f. contains (normalized m.source) (codes f)) sensitive_mount_fragments)
      sensitive_mount
  raise_if (not (starts_with (normalized m.source) (codes "d:/projects/runtime/shell-runs/")))
      outside_workspace

unfoldable pub validate_mounts : List DockerMount → Result PolicyError (Unit {0})
validate_mounts [] = ok tt
validate_mounts (m ∷ ms) = validate_mount m >> validate_mounts ms

abbrev pub network_allowed : String → Bool
network_allowed mode = mode == "none" || starts_with (codes mode) (codes "aegis-egress-")

abbrev pub drops_all : List String → Bool
drops_all (c ∷ []) = c == "ALL"
drops_all _ = false

abbrev pub unlimited_memory : List String
unlimited_memory = "0" ∷ "0m" ∷ "0Mi" ∷ "unlimited" ∷ []

unfoldable pub validate_policy : DockerSandboxPolicy → Result PolicyError (Unit {0})
validate_policy p = do
  raise_if p.privileged privileged_container
  raise_if (not (network_allowed p.network_mode)) bad_network
  raise_if (text_eq (before_colon (codes p.user)) (codes "0")) root_user
  raise_if (not (drops_all p.cap_drop)) capabilities_kept
  raise_if (not (is_empty p.cap_add)) capabilities_added
  raise_if (not (elem "no-new-privileges=true" p.security_opt)) new_privileges
  raise_if (not (is_positive p.resource_limits.pids_limit)) no_pids_limit
  raise_if (elem p.resource_limits.memory unlimited_memory) no_memory_limit
  validate_mounts p.mounts

abbrev pub security_options : List String → List String
security_options [] = []
security_options (o ∷ os) = "--security-opt" ∷ o ∷ security_options os

-- `f"type=bind,source={mount.source},target={mount.target}{readonly_suffix}"`
abbrev pub mount_option : DockerMount → String
mount_option m = str_append "type=bind,source=" (
    str_append m.source
      (str_append ",target=" (str_append m.target (if m.readonly then ",readonly" else ""))))

abbrev pub mount_options : List DockerMount → List String
mount_options [] = []
mount_options (m ∷ ms) = "--mount" ∷ mount_option m ∷ mount_options ms

abbrev pub limit_options : DockerResourceLimits → List String
limit_options l =
    str_append "--pids-limit=" (show_int l.pids_limit)
    ∷ str_append "--memory=" l.memory
    ∷ str_append "--memory-swap=" l.memory_swap
    ∷ str_append "--cpus=" l.cpus
    ∷ "--ulimit"
    ∷ str_append "nofile=" l.nofile
    ∷ []

-- The command up to the image.
abbrev pub run_options : DockerSandboxPolicy → List String
run_options p =
    "docker"
    ∷ "run"
    ∷ "--rm"
    ∷ str_append "--network=" p.network_mode
    ∷ ((if p.read_only then "--read-only" ∷ [] else [])
        ++ ("--tmpfs"
            ∷ p.tmpfs
            ∷ "--user"
            ∷ p.user
            ∷ (map (λ c. str_append "--cap-drop=" c) p.cap_drop
                ++ (security_options p.security_opt
                    ++ (limit_options p.resource_limits ++ mount_options p.mounts)))))

unfoldable pub build_docker_run_command :
    ScriptTemplateInvocation → DockerSandboxPolicy → Result PolicyError (List String)
build_docker_run_command i p =
    validate_policy p
    >> ok (run_options p ++ ("--entrypoint" ∷ i.entrypoint ∷ i.image_ref ∷ i.argv))
