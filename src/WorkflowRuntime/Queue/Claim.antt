-- ===== src/WorkflowRuntime/Queue/Claim.antt =====
-- The claim of a worker: it takes the least of the rows that can be claimed, and one where there is one.
use aegis_flow.Base.{
  ℕ, String, Bool, true, false, ◌&&◌, Option, none, some, List, [], ◌∷◌, ok, if◌then◌else◌, ◌≤◌,
  ◌<◌, ◌≢◌, All-map, ◌≡◌, refl, subst, ◌⊎◌, inl, inr, arith, In, All, All_in, Bool-cases,
  Option-cases, eq_refl,
}
use aegis_flow.Base.Rows.{modify-total}
use aegis_flow.WorkflowRuntime.Runs.{no_row}
use aegis_flow.WorkflowRuntime.Queue.{
  QueueItem, is_claimable, comes_before, first_claimable, claimed, claim_next_queue_item, has_id,
}

-- `q` does not come after `r`.
abbrev pub NotAfter : QueueItem → QueueItem → Type 0
NotAfter q r =
    (q.available_at < r.available_at)
    ⊎ ((q.available_at ≡ r.available_at) × (q.created_at ≤ r.created_at))

comes_before_elim : (a b : QueueItem) → comes_before a b ≡ true → NotAfter a b
comes_before_elim a b h = ground arith

comes_before_not : (a b : QueueItem) → comes_before a b ≡ false → NotAfter b a
comes_before_not a b h = ground arith

NotAfter-trans : (a b c : QueueItem) → NotAfter a b → NotAfter b c → NotAfter a c
NotAfter-trans a b c h k = ground arith

abbrev pub Least : (QueueItem → Bool) → ℕ → QueueItem → List QueueItem → Type 0
Least locked now q items =
    In q items
    × ((is_claimable locked now q ≡ true)
        × All (λ r. is_claimable locked now r ≡ true → NotAfter q r) items)

first_is_some :
    (q : QueueItem) (rest : Option QueueItem)
    → elim rest [ none ↦ some q | some r ↦ if comes_before r q then some r else some q ] ≢ none
first_is_some q none h = cc
first_is_some q (some r) h = elim (Bool-cases (comes_before r q)) [
  | inl e ↦ ground arith
  | inr e ↦ ground arith
]

first_claimable-none :
    (locked : QueueItem → Bool) (now : ℕ) (items : List QueueItem)
    → first_claimable locked now items ≡ none
    → All (λ q. is_claimable locked now q ≡ false) items
unfolding first_claimable
first_claimable-none locked now [] h = tt
first_claimable-none locked now (q ∷ qs) h = elim (Bool-cases (is_claimable locked now q)) [
  | inl t ↦ absurd (first_is_some q (first_claimable locked now qs) (rw t at h))
  | inr t ↦ (t, first_claimable-none locked now qs (rw t at h))
]

first_claimable-Least :
    (locked : QueueItem → Bool) (now : ℕ) (items : List QueueItem) (q : QueueItem)
    → first_claimable locked now items ≡ some q
    → Least locked now q items
unfolding first_claimable
first_claimable-Least locked now [] q h = cc
first_claimable-Least locked now (x ∷ xs) q h = elim (Bool-cases (is_claimable locked now x)) [
  | inl t ↦ elim (Option-cases (first_claimable locked now xs)) [
    | inl e ↦
        let same : x ≡ q = cc in
        subst (λ y. Least locked now y (x ∷ xs)) same
          (
            inl refl,
            (
              t,
              (
                λ _. inr (refl, omega arith),
                All-map _ _ xs (λ r n k. absurd (cc)) (first_claimable-none locked now xs e),
              ),
            ),
          )
    | inr (r, e) ↦
        let (i, (c, l)) = first_claimable-Least locked now xs r e in
        elim (Bool-cases (comes_before r x)) [
          | inl b ↦
              let same : r ≡ q = ground arith in
              subst (λ y. Least locked now y (x ∷ xs)) same
                (inr i, (c, (λ _. comes_before_elim r x b, l)))
          | inr b ↦
              let same : x ≡ q = ground arith in
              let less = comes_before_not r x b in
              subst (λ y. Least locked now y (x ∷ xs)) same
                (
                  inl refl,
                  (
                    t,
                    (
                      λ _. inr (refl, omega arith),
                      All-map _ _ xs (λ y n k. NotAfter-trans x r y less (n k)) l,
                    ),
                  ),
                )
        ]
  ]
  | inr t ↦
      let (i, (c, l)) = first_claimable-Least locked now xs q (rw t at h) in
      (inr i, (c, (λ k. absurd (cc), l)))
]

-- The primary key: of two rows with one id there is one.
abbrev pub PrimaryKey : List QueueItem → Type 0
PrimaryKey items = (a b : QueueItem) → In a items → In b items → a.id ≡ b.id → a ≡ b

-- Where a row can be claimed, a claim does return one.
pub claim_serves :
    (locked : QueueItem → Bool) (worker_id : String) (lease_seconds now : ℕ)
    (items : List QueueItem) (q : QueueItem)
    → In q items
    → is_claimable locked now q ≡ true
    → (taken : QueueItem) × ((after : List QueueItem) × (claim_next_queue_item locked worker_id
            lease_seconds now items
          ≡ ok (some taken, after)))
unfolding claim_next_queue_item
claim_serves locked worker_id lease_seconds now items q m c =
    elim (Option-cases (first_claimable locked now items)) [
      | inl e ↦ absurd (
          cc (
            All_in (λ r. is_claimable locked now r ≡ false) q items
              (first_claimable-none locked now items e) m))
      | inr (r, e) ↦
          let (i, (d, _)) = first_claimable-Least locked now items r e in
          let (w, k) =
            modify-total no_row (λ x. has_id r.id x && is_claimable locked now x)
              (claimed worker_id lease_seconds now) items r i (ground (arith, eq_refl r.id)) in
          (w.0, (w.1, rw (e, claim_next_queue_item, k)))
    ]
