-- ===== src/Execution/ShellPolicy/Accepts.antt =====
-- The templates that the image policy accepts.
use aegis_flow.Base.{String, true, false, ◌>>◌, ◌≡◌, ◌≢◌, ◌⊎◌}
use aegis_flow.Execution.ShellPolicy.{
  ShellImagePolicy, ShellTemplatePolicyInput, image_is_allowlisted, uses_latest_or_missing_tag,
  is_digest, evaluate_shell_template_policy,
}

-- What the policy asks of a template that says what to run.
pub record IsAcceptable (mode : String) (policy : ShellImagePolicy) (t : ShellTemplatePolicyInput)
    : Type 0 where
  pub tag : (policy.forbid_latest ≡ false) ⊎ (uses_latest_or_missing_tag t.image_ref ≡ false)
  pub listed : image_is_allowlisted t policy ≡ true
  pub given : (policy.require_digest ≡ false) ⊎ (t.image_digest ≢ "")
  pub well_formed : (t.image_digest ≡ "") ⊎ (is_digest t.image_digest ≡ true)
  pub admitted : (evaluate_shell_template_policy mode policy t).runtime_blocked ≡ false
