-- ===== src/PolicyCenter/Versions/Invariant.antt =====
-- What the writes of the versions keep: unique numbers, one published version of a policy at most, and
-- rules that passed the check.
use aegis_flow.Base.{
  ℕ, ◌≤◌, String, Bool, true, false, ◌&&◌, List, [], ◌∷◌, ◌++◌, map, any, any-append, count, ◌≡◌,
  refl, sym, ap, ◌∙◌, subst, inl, inr, arith, Bool-cases, ok, All, ◌==◌, eq_iff, eqb,
}
use aegis_flow.Base.Rows.{modify, modify-map}
use aegis_flow.PolicyCenter.Validation.Accepts.{UniqueIds, KeepsFloor, NoConflict}
use aegis_flow.PolicyCenter.Versions.{
  VersionRow, policy_not_found, is_draft, is_current, same_version, supersede_current,
}
use aegis_flow.PolicyCenter.Versions.Published.{Unpublished}

-- The columns of the unique constraint.
pub record VersionKey : Type 0 where
  pub project_id : String
  pub policy_ref : String
  pub version : ℕ

abbrev pub version_key : VersionRow → VersionKey
version_key v = record { project_id = v.project_id; policy_ref = v.policy_ref; version = v.version }

abbrev same_key : VersionKey → VersionKey → Bool
same_key k l =
    (l.project_id == k.project_id && l.policy_ref == k.policy_ref) && eqb k.version l.version

abbrev pub DistinctKeys : List VersionKey → Type 0
DistinctKeys [] = Unit
DistinctKeys (k ∷ ks) = (any (same_key k) ks ≡ false) × DistinctKeys ks

-- No two versions of a policy have one number.
abbrev pub Numbered : List VersionRow → Type 0
Numbered vs = DistinctKeys (map version_key vs)

-- A policy has one published version at most.
abbrev pub Single : List VersionRow → Type 0
Single vs = (project_id policy_ref : String) → count (is_current project_id policy_ref) vs ≤ 1

-- A version that is or was published passed the check.
abbrev pub Passed : VersionRow → Type 0
Passed v =
    is_draft v.status ≡ false → UniqueIds [] v.rules × (KeepsFloor v.rules × NoConflict v.rules)

abbrev pub IsSound : List VersionRow → Type 0
IsSound vs = Numbered vs × (Single vs × All Passed vs)

any-same_key :
    (w : VersionRow) (vs : List VersionRow)
    → any (same_version w) vs ≡ any (same_key (version_key w)) (map version_key vs)
any-same_key w [] = refl
any-same_key w (v ∷ vs) = ground (arith, any-same_key w vs)

same_key-sym : (k l : VersionKey) → same_key k l ≡ false → same_key l k ≡ false
same_key-sym k l h = ground (
  arith,
  h,
  eq_iff l.project_id k.project_id,
  eq_iff l.policy_ref k.policy_ref,
  eq_iff k.project_id l.project_id,
  eq_iff k.policy_ref l.policy_ref,
)

Distinct-append :
    (ks : List VersionKey) (k : VersionKey)
    → DistinctKeys ks
    → any (same_key k) ks ≡ false
    → DistinctKeys (ks ++ k ∷ [])
Distinct-append [] k d h = (refl, tt)
Distinct-append (l ∷ ks) k d h =
    let apart = same_key-sym k l (ground (arith, h)) in
    let one = any-append (same_key l) ks (k ∷ []) in
    (ground (arith, apart, one, d.0), Distinct-append ks k d.1 (ground (arith, h)))

map-append :
    (vs : List VersionRow) (w : VersionRow)
    → map version_key (vs ++ w ∷ []) ≡ map version_key vs ++ version_key w ∷ []
map-append [] w = refl
map-append (v ∷ vs) w = ap (λ ks. version_key v ∷ ks) (map-append vs w)

pub Numbered-append :
    (vs : List VersionRow) (w : VersionRow)
    → Numbered vs
    → any (same_version w) vs ≡ false
    → Numbered (vs ++ w ∷ [])
Numbered-append vs w n h =
    subst DistinctKeys (sym (map-append vs w))
      (Distinct-append (map version_key vs) (version_key w) n (sym (any-same_key w vs) ∙ h))

-- A write that keeps the columns of the key.
pub Numbered-modify :
    (p : VersionRow → Bool) (f : VersionRow → VersionRow) (vs : List VersionRow) (w : VersionRow)
    (after : List VersionRow)
    → ((v : VersionRow) → version_key (f v) ≡ version_key v)
    → modify policy_not_found p f vs ≡ ok (w, after)
    → Numbered vs
    → Numbered after
Numbered-modify p f vs w after keeps h n =
    subst DistinctKeys (sym (modify-map version_key policy_not_found p f vs w after keeps h)) n

current_not_draft :
    (project_id policy_ref : String) (v : VersionRow)
    → is_current project_id policy_ref v ≡ true
    → is_draft v.status ≡ false
current_not_draft project_id policy_ref v h = ground (arith, h)

module _ (project_id policy_ref actor_id : String) where
  pub supersede-keys :
      (vs : List VersionRow)
      → map version_key (supersede_current project_id policy_ref actor_id vs) ≡ map version_key vs
  unfolding supersede_current
  supersede-keys [] = refl
  supersede-keys (v ∷ vs) = elim (Bool-cases (is_current project_id policy_ref v)) [
    | inl t ↦ rw t (ap (λ ks. version_key v ∷ ks) (supersede-keys vs))
    | inr t ↦ rw t (ap (λ ks. version_key v ∷ ks) (supersede-keys vs))
  ]

  pub supersede-Passed :
      (vs : List VersionRow)
      → All Passed vs
      → All Passed (supersede_current project_id policy_ref actor_id vs)
  unfolding supersede_current
  supersede-Passed [] all = tt
  supersede-Passed (v ∷ vs) all =
      let rest = supersede-Passed vs all.1 in
      elim (Bool-cases (is_current project_id policy_ref v)) [
        | inl t ↦ rw t (λ _. all.0 (current_not_draft project_id policy_ref v t), rest)
        | inr t ↦ rw t (all.0, rest)
      ]

  -- No policy has more published versions than before.
  pub supersede-count :
      (p r : String) (vs : List VersionRow)
      → count (is_current p r) (supersede_current project_id policy_ref actor_id vs)
        ≤ count (is_current p r) vs
  unfolding supersede_current
  supersede-count p r [] = omega arith
  supersede-count p r (v ∷ vs) =
      let rest = supersede-count p r vs in
      elim (Bool-cases (is_current project_id policy_ref v)) [
        | inl t ↦ ground (arith, t, rest)
        | inr t ↦ ground (arith, t, rest)
      ]

pub Unpublished-count :
    (project_id policy_ref : String) (vs : List VersionRow)
    → Unpublished project_id policy_ref vs
    → count (is_current project_id policy_ref) vs ≡ 0
Unpublished-count project_id policy_ref [] u = refl
Unpublished-count project_id policy_ref (v ∷ vs) u =
    let rest = Unpublished-count project_id policy_ref vs u.1 in ground (arith, u.0, rest)
