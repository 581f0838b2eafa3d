-- ===== src/Execution/Sandbox/Policy.antt =====
-- The policies that are accepted, and what a command that is built says.
use aegis_flow.Base.{
  String, str_append, Bool, true, false, not, List, [], ◌∷◌, ◌++◌, map, Result, ok, ◌>>◌, raise_if,
  if◌then◌else◌, is_empty, any, elem, ◌≡◌, ◌≢◌, refl, ◌↔◌, ◌⊎◌, inl, inr, ⊎_elim, arith, In,
  In-append, All, elem_iff, eq_iff, >>=-eq-ok,
}
use aegis_flow.Base.Texts.{codes, text_eq, text_eq_iff, starts_with, contains}
use aegis_flow.Execution.Sandbox.{
  is_positive, DockerMount, ScriptTemplateInvocation, DockerSandboxPolicy, PolicyError,
  privileged_container, bad_network, root_user, capabilities_kept, capabilities_added,
  new_privileges, no_pids_limit, no_memory_limit, sensitive_mount_fragments, normalized,
  before_colon, validate_mount, validate_mounts, network_allowed, drops_all, unlimited_memory,
  validate_policy, security_options, mount_options, limit_options, run_options,
  build_docker_run_command,
}

-- A mount that cannot be written, names no sensitive path and starts inside the workspace of the runs.
pub record IsSafeMount (m : DockerMount) : Type 0 where
  pub read_only : m.readonly ≡ true
  pub no_fragment :
      any (λ f. contains (normalized m.source) (codes f)) sensitive_mount_fragments ≡ false
  pub inside : starts_with (normalized m.source) (codes "d:/projects/runtime/shell-runs/") ≡ true

pub record IsSafePolicy (p : DockerSandboxPolicy) : Type 0 where
  pub unprivileged : p.privileged ≡ false
  pub network :
      (p.network_mode ≡ "none")
      ⊎ (starts_with (codes p.network_mode) (codes "aegis-egress-") ≡ true)
  pub no_root : before_colon (codes p.user) ≢ codes "0"
  pub drops : p.cap_drop ≡ "ALL" ∷ []
  pub adds : p.cap_add ≡ []
  pub no_new : In "no-new-privileges=true" p.security_opt
  pub pids : is_positive p.resource_limits.pids_limit ≡ true
  pub memory : ¬ (In p.resource_limits.memory unlimited_memory)
  pub mounts : All IsSafeMount p.mounts

validate_mount_iff : (m : DockerMount) → (validate_mount m ≡ ok tt) ↔ IsSafeMount m
unfolding validate_mount
validate_mount_iff m = ground arith

validate_mounts_iff : (ms : List DockerMount) → (validate_mounts ms ≡ ok tt) ↔ All IsSafeMount ms
unfolding validate_mounts
validate_mounts_iff [] = ground arith
validate_mounts_iff (m ∷ ms) = ground (arith, validate_mount_iff m, validate_mounts_iff ms)

drops_all_iff : (cs : List String) → (drops_all cs ≡ true) ↔ (cs ≡ "ALL" ∷ [])
drops_all_iff [] = ground arith
drops_all_iff (c ∷ []) = ground (arith, eq_iff c "ALL")
drops_all_iff (c ∷ d ∷ cs) = ground arith

is_empty_iff : (cs : List String) → (is_empty cs ≡ true) ↔ (cs ≡ [])
is_empty_iff [] = ground arith
is_empty_iff (c ∷ cs) = ground arith

checks_iff :
    (a b c d e f g h : Bool) (rest : Result PolicyError (Unit {0}))
    → ((do
      raise_if a privileged_container
      raise_if (not b) bad_network
      raise_if c root_user
      raise_if (not d) capabilities_kept
      raise_if (not e) capabilities_added
      raise_if (not f) new_privileges
      raise_if (not g) no_pids_limit
      raise_if h no_memory_limit
      rest)
        ≡ ok tt)
      ↔ ((a ≡ false)
          × ((b ≡ true)
              × ((c ≡ false)
                  × ((d ≡ true)
                      × ((e ≡ true)
                          × ((f ≡ true) × ((g ≡ true) × ((h ≡ false) × (rest ≡ ok tt)))))))))
checks_iff a b c d e f g h rest = ground arith

network_iff :
    (mode : String)
    → (network_allowed mode ≡ true)
      ↔ ((mode ≡ "none") ⊎ (starts_with (codes mode) (codes "aegis-egress-") ≡ true))
network_iff mode = ground (arith, eq_iff mode "none")

is_false : (b : Bool) → b ≢ true → b ≡ false
is_false true h = absurd (h refl)
is_false false h = refl

pub validate_policy_iff : (p : DockerSandboxPolicy) → (validate_policy p ≡ ok tt) ↔ IsSafePolicy p
unfolding validate_policy
validate_policy_iff p =
    let b = text_eq_iff (before_colon (codes p.user)) (codes "0") in
    let c = drops_all_iff p.cap_drop in
    let d = is_empty_iff p.cap_add in
    let e = elem_iff "no-new-privileges=true" p.security_opt in
    let f = elem_iff p.resource_limits.memory unlimited_memory in
    let g = validate_mounts_iff p.mounts in
    let w = network_iff p.network_mode in
    let all =
      checks_iff p.privileged (network_allowed p.network_mode)
        (text_eq (before_colon (codes p.user)) (codes "0")) (drops_all p.cap_drop)
        (is_empty p.cap_add) (elem "no-new-privileges=true" p.security_opt)
        (is_positive p.resource_limits.pids_limit) (elem p.resource_limits.memory unlimited_memory)
        (validate_mounts p.mounts) in
    (
      λ h.
          let (p1, (p2, (p3, (p4, (p5, (p6, (p7, (p8, p9)))))))) = all.0 h in
          record {
            unprivileged = p1;
            network = w.0 p2;
            no_root = λ x. cc (b.1 x);
            drops = c.0 p4;
            adds = d.0 p5;
            no_new = e.0 p6;
            pids = p7;
            memory = λ x. cc (f.1 x);
            mounts = g.0 p9;
          },
      λ s. all.1 (
        s.unprivileged,
        (
          w.1 s.network,
          (
            is_false (text_eq (before_colon (codes p.user)) (codes "0")) (λ x. s.no_root (b.0 x)),
            (
              c.1 s.drops,
              (
                d.1 s.adds,
                (
                  e.1 s.no_new,
                  (
                    s.pids,
                    (
                      is_false (elem p.resource_limits.memory unlimited_memory)
                          (λ x. s.memory (f.0 x)),
                      g.1 s.mounts,
                    ),
                  ),
                ),
              ),
            ),
          ),
        ),
      ),
    )

In-options :
    (x : String) (p : DockerSandboxPolicy)
    → In x (map (λ c. str_append "--cap-drop=" c) p.cap_drop)
      ⊎ In x (security_options p.security_opt)
    → In x (run_options p)
In-options x p h =
    let limits = limit_options p.resource_limits ++ mount_options p.mounts in
    let inner = In-append x (security_options p.security_opt) limits in
    let outer =
      In-append x (map (λ c. str_append "--cap-drop=" c) p.cap_drop)
        (security_options p.security_opt ++ limits) in
    let found = outer.1 (⊎_elim inl (λ s. inr (inner.1 (inl s))) h) in
    let first = In-append x (if p.read_only then "--read-only" ∷ [] else []) (
      "--tmpfs"
      ∷ p.tmpfs
      ∷ "--user"
      ∷ p.user
      ∷ (map (λ c. str_append "--cap-drop=" c) p.cap_drop
          ++ (security_options p.security_opt ++ limits))) in
    inr (inr (inr (inr (first.1 (inr (inr (inr (inr (inr found)))))))))

In-security_options : (x : String) (os : List String) → In x os → In x (security_options os)
In-security_options x [] m = absurd m
In-security_options x (o ∷ os) (inl e) = inr (inl e)
In-security_options x (o ∷ os) (inr m) = inr (inr (In-security_options x os m))

-- Where a command is built, its policy is safe; the command drops all capabilities, turns new privileges
-- off before it names the image, and ends with the entrypoint, the image and the arguments.
pub build_docker_run_command_lem :
    (i : ScriptTemplateInvocation) (p : DockerSandboxPolicy) (command : List String)
    → build_docker_run_command i p ≡ ok command
    → IsSafePolicy p
      × ((options : List String) × ((command
              ≡ options ++ ("--entrypoint" ∷ i.entrypoint ∷ i.image_ref ∷ i.argv))
            × (In "--cap-drop=ALL" options × In "no-new-privileges=true" options)))
unfolding build_docker_run_command
build_docker_run_command_lem i p command h =
    let (u, v, k) =
      >>=-eq-ok {B = List String} (validate_policy p)
        (λ _. ok (run_options p ++ ("--entrypoint" ∷ i.entrypoint ∷ i.image_ref ∷ i.argv))) h in
    let safe = (validate_policy_iff p).0 v in
    (
      safe,
      (
        run_options p,
        (
          ground (arith, k),
          (
            In-options "--cap-drop=ALL" p (inl (rw safe.drops (inl refl))),
            In-options "no-new-privileges=true" p
                (inr (In-security_options "no-new-privileges=true" p.security_opt safe.no_new)),
          ),
        ),
      ),
    )
