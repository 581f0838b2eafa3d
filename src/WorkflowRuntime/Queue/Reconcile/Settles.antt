-- ===== src/WorkflowRuntime/Queue/Reconcile/Settles.antt =====
-- What a startup reconciliation leaves: rows that agree with their runs, and none that is stale.
use aegis_flow.Base.{
  ℕ, true, ◌||◌, List, [], ◌∷◌, Result, ok, ◌<◌, ◌≡◌, subst, ◌⊎◌, inl, inr, arith, All, Bool-cases,
  >>=-eq-ok,
}
use aegis_flow.Base.Rows.{modify}
use aegis_flow.WorkflowRuntime.Runs.{RunStatus, Run, StoreError, no_row, is_run, load_run}
use aegis_flow.WorkflowRuntime.Queue.{queued, QueueItem, is_terminal}
use aegis_flow.WorkflowRuntime.Queue.Sound.{IsSound}
use aegis_flow.WorkflowRuntime.Queue.Reconcile.{
  Counts, is_settled, is_cancelled, is_stale, verdict, settled_item, settled_run, count,
  reconcile_rows,
}

-- A row and its run once settled: the row ended, and the run ended or waits for an approval; or both
-- are queued again, and the row has an attempt left.
abbrev pub Agrees : QueueItem → Run → Type 0
Agrees q r =
    ((is_terminal q.status ≡ true) × ((is_settled r.status || is_cancelled r.status) ≡ true))
    ⊎ ((q.status ≡ queued)
        × ((q.attempt_count < q.request.max_attempts) × (r.status ≡ RunStatus.queued)))

ok-eq :
    (c d : Counts) (x y : List QueueItem × List Run)
    → ◌≡◌ {A = Result StoreError (Counts × (List QueueItem × List Run))} (ok (c, x)) (ok (d, y))
    → (c ≡ d) × (x.0 ≡ y.0)
ok-eq c d x y h = ground arith

IsSound-settled_item :
    (now : ℕ) (run : Run) (q : QueueItem) → IsSound q → IsSound (settled_item now (verdict run q) q)
unfolding verdict settled_item
IsSound-settled_item now run q s = ground (arith, s.bounded)

pub IsSound-reconcile_rows :
    (now : ℕ) (items : List QueueItem) (runs : List Run) (c d : Counts) (after : List QueueItem)
    (left : List Run)
    → All IsSound items
    → reconcile_rows now items runs c ≡ ok (d, (after, left))
    → All IsSound after
unfolding reconcile_rows
IsSound-reconcile_rows now [] runs c d after left s h = ground arith
IsSound-reconcile_rows now (q ∷ qs) runs c d after left s h = elim (Bool-cases (is_stale now q)) [
  | inl t ↦
      let (run, l, k) =
        >>=-eq-ok (load_run q.request.project_id q.request.run_id runs) _ {b = (d, (after, left))}
          (rw (t, reconcile_rows) at h) in
      let (r, m, n) =
        >>=-eq-ok
          (modify no_row (is_run q.request.project_id q.request.run_id)
            (settled_run (verdict run q) q) runs)
          _ k in
      let (rest, o, p) = >>=-eq-ok (reconcile_rows now qs r.1 (count (verdict run q) c)) _ n in
      subst (All IsSound)
        (ok-eq rest.0 d (settled_item now (verdict run q) q ∷ rest.1.0, rest.1.1) (after, left) p).1
        (
          IsSound-settled_item now run q s.0,
          IsSound-reconcile_rows now qs r.1 (count (verdict run q) c) rest.0 rest.1.0 rest.1.1 s.1
              o,
        )
  | inr t ↦
      let k =
        >>=-eq-ok {B = Counts × (List QueueItem × List Run)} (reconcile_rows now qs runs c)
          (λ rest. ok (rest.0, (q ∷ rest.1.0, rest.1.1))) {b = (d, (after, left))}
          (rw (t, reconcile_rows) at h) in
      subst (All IsSound) (ok-eq k.0.0 d (q ∷ k.0.1.0, k.0.1.1) (after, left) k.2).1
        (s.0, IsSound-reconcile_rows now qs runs c k.0.0 k.0.1.0 k.0.1.1 s.1 k.1)
]
