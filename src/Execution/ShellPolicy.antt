-- ===== src/Execution/ShellPolicy.antt =====
-- backend/app/execution/shell_policy.py: the image policy of a shell template. `lower` folds the letters
-- of ASCII; the schema of the parameters, the rendering of the arguments and the hash are not modelled.
pub mod Posture
pub mod Accepts
use aegis_flow.Base.{
  ℕ, suc, zero, String, Bool, true, false, not, ◌&&◌, ◌||◌, List, [], ◌∷◌, ◌++◌, ◌==◌, Result, ok,
  err, ◌>>=◌, ◌>>◌, raise_if, if◌then◌else◌, is_empty, any, all, elem, eqb, leb, length,
}
use aegis_flow.Base.Texts.{Text, codes, text_eq, starts_with, lower}

pub record ShellImagePolicy : Type 0 where
  pub allowlist : List String
  pub require_digest : Bool
  pub forbid_latest : Bool

pub record ShellTemplatePolicyDecision : Type 0 where
  pub approval_required : Bool
  pub digest_required : Bool
  pub allowlisted : Bool
  pub runtime_admission_status : String
  pub runtime_recheck_required : Bool
  pub runtime_blocked : Bool
  pub runtime_reason : String
  pub reasons : List String

pub record ShellImageRuntimePosture : Type 0 where
  pub admission_status : String
  pub recheck_required : Bool
  pub blocked : Bool
  pub reason : String

-- `ShellTemplatePolicyInput`, less the fields that no function here reads.
pub record ShellTemplatePolicyInput : Type 0 where
  pub template_ref : String
  pub template_version : ℕ
  pub risk_level : String
  pub environment_key : String
  pub image_ref : String
  pub image_digest : String
  pub entrypoint : String
  pub argv_template : List String
  pub image_registry_digest : String
  pub image_admission_status : String

pub data ShellTemplatePolicyError : Type 0 where
  latest_forbidden not_allowlisted digest_required digest_invalid : ShellTemplatePolicyError
  runtime_refused : String → ShellTemplatePolicyError

-- `bool(text)`
abbrev pub truthy : String → Bool
truthy s = not (s == "")

-- `text or fallback`
abbrev pub or_else : String → String → String
or_else s fallback = if s == "" then fallback else s

abbrev pub has_executable_metadata : ShellTemplatePolicyInput → Bool
has_executable_metadata t =
    truthy t.image_ref || truthy t.entrypoint || not (is_empty t.argv_template)

abbrev pub is_production : String → Bool
is_production key =
    let folded = lower (codes key) in
    text_eq folded (codes "prod") || text_eq folded (codes "production")

-- `_requires_image_admission_for_runtime`, and the test of `approval_required`.
unfoldable pub requires_image_admission : ShellTemplatePolicyInput → Bool
requires_image_admission t =
    is_production t.environment_key || elem t.risk_level ("high" ∷ "critical" ∷ [])

unfoldable pub image_is_allowlisted : ShellTemplatePolicyInput → ShellImagePolicy → Bool
image_is_allowlisted t policy =
    if elem t.image_ref policy.allowlist
    then true
    else elem t.image_admission_status ("approved" ∷ "would_reject" ∷ [])
      && truthy t.image_registry_digest
      && t.image_registry_digest == t.image_digest

abbrev pub has_code : ℕ → Text → Bool
has_code c text = any (eqb c) text

-- `text.rsplit(separator, maxsplit=1)[-1]`
abbrev pub after_last : ℕ → Text → Text
after_last c [] = []
after_last c (x ∷ xs) =
    let rest = after_last c xs in if has_code c xs then rest else if eqb x c then xs else x ∷ xs

-- `_uses_latest_or_missing_tag`: `/` is 47 and `:` is 58.
unfoldable pub uses_latest_or_missing_tag : String → Bool
uses_latest_or_missing_tag image_ref =
    let segment = after_last 47 (codes image_ref) in
    if not (has_code 58 segment) then true else text_eq (after_last 58 segment) (codes "latest")

abbrev pub drop : ℕ → Text → Text
drop zero xs = xs
drop (suc n) [] = []
drop (suc n) (x ∷ xs) = drop n xs

-- `[0-9a-fA-F]`
abbrev pub is_hex : ℕ → Bool
is_hex c = leb 48 c && leb c 57 || leb 97 c && leb c 102 || leb 65 c && leb c 70

-- `_IMAGE_DIGEST_PATTERN.fullmatch`
unfoldable pub is_digest : String → Bool
is_digest s =
    let text = codes s in
    starts_with text (codes "sha256:") && eqb (length (drop 7 text)) 64 && all is_hex (drop 7 text)

abbrev reason_enforce : String
reason_enforce =
    "Runtime requires approved shell image admission under enforce mode; re-resolve image admission before running this shell template"

abbrev reason_dry_run : String
reason_dry_run =
    "Dry-run shell image admission would reject this image; enforce mode will block runtime until image admission is re-resolved and approved"

abbrev reason_recheck : String
reason_recheck = "Shell image admission should be re-resolved before runtime"

abbrev pub digest_matches_snapshot : ShellTemplatePolicyInput → Bool
digest_matches_snapshot t =
    truthy t.image_registry_digest && t.image_registry_digest == t.image_digest

unfoldable pub evaluate_shell_image_runtime_posture :
    String → ShellTemplatePolicyInput → ShellImageRuntimePosture
unfolding requires_image_admission
evaluate_shell_image_runtime_posture mode t =
    let status = or_else t.image_admission_status "not_checked" in
    let matches = digest_matches_snapshot t in
    let changed = truthy t.image_registry_digest && not matches in
    let approved = status == "approved" && matches in
    if not (requires_image_admission t)
    then record {
      admission_status = or_else t.image_admission_status "not_required";
      recheck_required = false;
      blocked = false;
      reason = "";
    }
    else if mode == "enforce" && not approved
    then record {
      admission_status = status;
      recheck_required = true;
      blocked = true;
      reason = reason_enforce;
    }
    else if status == "would_reject" || changed
    then record {
      admission_status = status;
      recheck_required = true;
      blocked = false;
      reason = reason_dry_run;
    }
    else if not (elem status ("approved" ∷ "not_required" ∷ []))
    then record {
      admission_status = status;
      recheck_required = true;
      blocked = false;
      reason = reason_recheck;
    }
    else record {
      admission_status = status;
      recheck_required = false;
      blocked = false;
      reason = "";
    }

unfoldable pub evaluate_shell_template_policy :
    String → ShellImagePolicy → ShellTemplatePolicyInput → ShellTemplatePolicyDecision
unfolding requires_image_admission image_is_allowlisted evaluate_shell_image_runtime_posture
evaluate_shell_template_policy mode policy t =
    let posture = evaluate_shell_image_runtime_posture mode t in
    let approval : List String =
      if requires_image_admission t
      then "Production or high risk shell templates require approval" ∷ []
      else [] in
    let digest : List String =
      if policy.require_digest then "Shell images must carry a sha256 digest" ∷ [] else [] in
    let runtime : List String = if truthy posture.reason then posture.reason ∷ [] else [] in
    record {
      approval_required = requires_image_admission t;
      digest_required = policy.require_digest;
      allowlisted = image_is_allowlisted t policy;
      runtime_admission_status = posture.admission_status;
      runtime_recheck_required = posture.recheck_required;
      runtime_blocked = posture.blocked;
      runtime_reason = posture.reason;
      reasons = approval ++ (digest ++ runtime);
    }

unfoldable pub validate_shell_template_policy :
    String
    → ShellImagePolicy
    → ShellTemplatePolicyInput
    → Result ShellTemplatePolicyError ShellTemplatePolicyDecision
validate_shell_template_policy mode policy t =
    let decision = evaluate_shell_template_policy mode policy t in
    if not (has_executable_metadata t) then ok decision else (do
      raise_if (policy.forbid_latest && uses_latest_or_missing_tag t.image_ref) latest_forbidden
      raise_if (not (image_is_allowlisted t policy)) not_allowlisted
      raise_if (policy.require_digest && not (truthy t.image_digest)) digest_required
      raise_if (truthy t.image_digest && not (is_digest t.image_digest)) digest_invalid
      raise_if decision.runtime_blocked (runtime_refused decision.runtime_reason)
      ok decision)
