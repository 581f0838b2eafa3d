-- ===== src/Execution/ShellPolicy/Posture.antt =====
-- When the runtime of a shell template is blocked, and when a check is asked for.
use aegis_flow.Base.{
  String, Bool, true, not, ◌&&◌, ◌==◌, ◌≡◌, ◌≢◌, sym, subst, ◌↔◌, inl, inr, arith, Bool-cases,
  eq_iff,
}
use aegis_flow.Execution.ShellPolicy.{
  ShellTemplatePolicyInput, requires_image_admission, or_else, digest_matches_snapshot,
  evaluate_shell_image_runtime_posture,
}

-- An approval whose snapshot has the digest that the template pins, which is not empty.
pub record IsAdmitted (t : ShellTemplatePolicyInput) : Type 0 where
  pub approved : t.image_admission_status ≡ "approved"
  pub pinned : t.image_registry_digest ≢ ""
  pub same : t.image_registry_digest ≡ t.image_digest

abbrev admitted : ShellTemplatePolicyInput → Bool
admitted t =
    or_else t.image_admission_status "not_checked" == "approved" && digest_matches_snapshot t

status_iff : (s : String) → (or_else s "not_checked" == "approved" ≡ true) ↔ (s ≡ "approved")
status_iff s = elim (Bool-cases (s == "")) [
  | inl e ↦
      subst (λ y. (or_else y "not_checked" == "approved" ≡ true) ↔ (y ≡ "approved"))
        (sym ((eq_iff s "").0 e)) (eq_iff "" "approved")
  | inr e ↦ ground (arith, eq_iff s "approved")
]

admitted_iff : (t : ShellTemplatePolicyInput) → (admitted t ≡ true) ↔ IsAdmitted t
admitted_iff t =
    let c = status_iff t.image_admission_status in
    let d = eq_iff t.image_registry_digest "" in
    let e = eq_iff t.image_registry_digest t.image_digest in ground arith

blocked-eq :
    (mode : String) (t : ShellTemplatePolicyInput)
    → (evaluate_shell_image_runtime_posture mode t).blocked
      ≡ (requires_image_admission t && (mode == "enforce" && not (admitted t)))
unfolding evaluate_shell_image_runtime_posture
blocked-eq mode t = ground arith

-- A template is blocked exactly in the mode `enforce`, where it is for production or of high risk and its
-- image is not admitted under the digest it pins.
pub evaluate_shell_image_runtime_posture_blocked :
    (mode : String) (t : ShellTemplatePolicyInput)
    → ((evaluate_shell_image_runtime_posture mode t).blocked ≡ true)
      ↔ ((mode ≡ "enforce") × ((requires_image_admission t ≡ true) × ¬ (IsAdmitted t)))
evaluate_shell_image_runtime_posture_blocked mode t =
    let a = eq_iff mode "enforce" in let b = admitted_iff t in rw (blocked-eq mode t) (ground arith)
