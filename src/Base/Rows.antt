-- ===== src/Base/Rows.antt =====
-- Tables as lists of rows: the row a statement selects, and the row a session writes.
use aegis_flow.Base.Tests.{if◌then◌else◌, Bool-cases}
use aegis_flow.Base.Lists.{All, In, count, length}
use aegis_flow.Base.Results.{Result, ok, err, ◌>>=◌, >>=-eq-ok}
use Prim.Native.Nat.{suc, ◌+◌}
use mathlib.Core.Path.{◌∙◌, ◌≡◌, refl, ap, subst}
use mathlib.Core.Logic.{inl, inr, ⊎_elim}
use mathlib.Core.Bool.{Bool, true}
use mathlib.Core.Option.{Option, none, some}
use mathlib.Core.List.{List, [], ◌∷◌, map}
use native.Mathlib.Omega.{arith}

module _ {A : Type 0} where
  -- `select(...).where(p)`, of which one row at most is expected.
  unfoldable pub find_row : (A → Bool) → List A → Option A
  find_row p [] = none
  find_row p (x ∷ xs) = if p x then some x else find_row p xs

  -- Loads the row under `p` and writes it back as `f` of it; `missing` is what no such row raises.
  unfoldable pub modify {κ} :
      {E : Type κ} → E → (A → Bool) → (A → A) → List A → Result E (A × List A)
  modify missing p f [] = err missing
  modify missing p f (x ∷ xs) =
      let rest = modify missing p f xs in
      if p x then ok (f x, f x ∷ xs) else rest >>= λ r. ok (r.0, x ∷ r.1)

  pub find_row_sound :
      (p : A → Bool) (xs : List A) (a : A) → find_row p xs ≡ some a → In a xs × (p a ≡ true)
  unfolding find_row
  find_row_sound p [] a h = cc
  find_row_sound p (x ∷ xs) a h = elim (Bool-cases (p x)) [
    | inl t ↦ ground arith
    | inr t ↦ let r = find_row_sound p xs a (ground arith) in (inr r.0, r.1)
  ]

  -- What holds of every row still does after a write that keeps it.
  pub modify-All {κ μ} :
      {E : Type κ} (P : A → Type μ) (missing : E) (p : A → Bool) (f : A → A) (xs : List A) (a : A)
      (ys : List A)
      → ((x : A) → p x ≡ true → P x → P (f x))
      → All P xs
      → modify missing p f xs ≡ ok (a, ys)
      → All P ys
  unfolding modify
  modify-All P missing p f [] a ys keeps h e = cc
  modify-All P missing p f (x ∷ xs) a ys keeps h e = elim (Bool-cases (p x)) [
    | inl t ↦ let same : f x ∷ xs ≡ ys = ground arith in subst (All P) same (keeps x t h.0, h.1)
    | inr t ↦
        let (r, q, s) =
          >>=-eq-ok {B = A × List A} (modify missing p f xs) (λ r. ok (r.0, x ∷ r.1)) {b = (a, ys)}
            (ground arith) in
        let same : x ∷ r.1 ≡ ys = ground arith in
        subst (All P) same (h.0, modify-All P missing p f xs r.0 r.1 keeps h.1 q)
  ]

  -- The row that is written is `f` of a row under `p`, and the others stay.
  pub modify-row {κ} :
      {E : Type κ} (missing : E) (p : A → Bool) (f : A → A) (xs : List A) (a : A) (ys : List A)
      → modify missing p f xs ≡ ok (a, ys)
      → (b : A) × (In b xs × ((p b ≡ true) × ((a ≡ f b) × In a ys)))
  unfolding modify
  modify-row missing p f [] a ys e = cc
  modify-row missing p f (x ∷ xs) a ys e = elim (Bool-cases (p x)) [
    | inl t ↦
        let same : f x ∷ xs ≡ ys = ground arith in
        let row : a ≡ f x = ground arith in (x, (inl refl, (t, (row, subst (In a) same (inl row)))))
    | inr t ↦
        let (r, q, s) =
          >>=-eq-ok {B = A × List A} (modify missing p f xs) (λ r. ok (r.0, x ∷ r.1)) {b = (a, ys)}
            (ground arith) in
        let same : x ∷ r.1 ≡ ys = ground arith in
        let row : r.0 ≡ a = ground arith in
        let (b, (i, (j, (k, l)))) = modify-row missing p f xs r.0 r.1 q in
        (
          b,
          (
            inr i,
            (
              j,
              (subst (λ y. y ≡ f b) row k, subst (In a) same (inr (subst (λ y. In y r.1) row l))),
            ),
          ),
        )
  ]

  -- A table that has a row under `p` is written.
  pub modify-total {κ} :
      {E : Type κ} (missing : E) (p : A → Bool) (f : A → A) (xs : List A) (b : A)
      → In b xs
      → p b ≡ true
      → (r : A × List A) × (modify missing p f xs ≡ ok r)
  unfolding modify
  modify-total missing p f [] b m t = absurd m
  modify-total missing p f (x ∷ xs) b m t = elim (Bool-cases (p x)) [
    | inl u ↦ ((f x, f x ∷ xs), ground arith)
    | inr u ↦
        let (r, q) =
          modify-total missing p f xs b (⊎_elim (λ e. absurd (ground arith)) (λ k. k) m) t in
        ((r.0, x ∷ r.1), ground arith)
  ]

  -- After a write that leaves the test of the rows as it was, the row found is the one written.
  pub find_row-modify {κ} :
      {E : Type κ} (missing : E) (p : A → Bool) (f : A → A) (xs : List A) (a : A) (ys : List A)
      → ((x : A) → p (f x) ≡ p x)
      → modify missing p f xs ≡ ok (a, ys)
      → find_row p ys ≡ some a
  unfolding find_row modify
  find_row-modify missing p f [] a ys keeps e = cc
  find_row-modify missing p f (x ∷ xs) a ys keeps e = elim (Bool-cases (p x)) [
    | inl t ↦
        let same : f x ∷ xs ≡ ys = ground arith in
        let row : f x ≡ a = ground arith in
        let kept : p (f x) ≡ true = keeps x ∙ t in
        subst (λ y. find_row p y ≡ some a) same (rw (kept, row) refl)
    | inr t ↦
        let (r, q, s) =
          >>=-eq-ok {B = A × List A} (modify missing p f xs) (λ r. ok (r.0, x ∷ r.1)) {b = (a, ys)}
            (ground arith) in
        let same : x ∷ r.1 ≡ ys = ground arith in
        let row : r.0 ≡ a = ground arith in
        let later = find_row-modify missing p f xs r.0 r.1 keeps q in
        subst (λ y. find_row p y ≡ some a) same (rw (t, find_row, later, row) refl)
  ]

  -- A write counts its row as it is after in place of before, and the others as they were.
  pub modify-count {κ} :
      {E : Type κ} (q : A → Bool) (missing : E) (p : A → Bool) (f : A → A) (xs : List A) (b a : A)
      (ys : List A)
      → find_row p xs ≡ some b
      → modify missing p f xs ≡ ok (a, ys)
      → count q ys + (if q b then 1 else 0) ≡ count q xs + (if q (f b) then 1 else 0)
  unfolding find_row modify
  modify-count q missing p f [] b a ys found h = cc
  modify-count q missing p f (x ∷ xs) b a ys found h = elim (Bool-cases (p x)) [
    | inl t ↦
        let same : x ≡ b = ground arith in
        let e : f x ∷ xs ≡ ys = ground arith in
        subst
          (λ zs.
            count q zs + (if q b then 1 else 0) ≡ count q (x ∷ xs) + (if q (f b) then 1 else 0))
          e
          (subst
            (λ c.
              count q (f x ∷ xs) + (if q c then 1 else 0)
              ≡ count q (x ∷ xs) + (if q (f c) then 1 else 0))
            same (omega arith))
    | inr t ↦
        let (r, c, s) =
          >>=-eq-ok {B = A × List A} (modify missing p f xs) (λ r. ok (r.0, x ∷ r.1)) {b = (a, ys)}
            (ground arith) in
        let e : x ∷ r.1 ≡ ys = ground arith in
        let rest = modify-count q missing p f xs b r.0 r.1 (ground arith) c in
        subst
          (λ zs.
            count q zs + (if q b then 1 else 0) ≡ count q (x ∷ xs) + (if q (f b) then 1 else 0))
          e (omega (arith, rest))
  ]

  pub modify-length {κ} :
      {E : Type κ} (missing : E) (p : A → Bool) (f : A → A) (xs : List A) (a : A) (ys : List A)
      → modify missing p f xs ≡ ok (a, ys)
      → length ys ≡ length xs
  unfolding modify
  modify-length missing p f [] a ys h = cc
  modify-length missing p f (x ∷ xs) a ys h = elim (Bool-cases (p x)) [
    | inl t ↦
        let e : f x ∷ xs ≡ ys = ground arith in subst (λ zs. length zs ≡ length (x ∷ xs)) e refl
    | inr t ↦
        let (r, c, s) =
          >>=-eq-ok {B = A × List A} (modify missing p f xs) (λ r. ok (r.0, x ∷ r.1)) {b = (a, ys)}
            (ground arith) in
        let e : x ∷ r.1 ≡ ys = ground arith in
        subst (λ zs. length zs ≡ length (x ∷ xs)) e
          (ap suc (modify-length missing p f xs r.0 r.1 c))
  ]

  -- What holds of every row, and of the row written, holds after the write.
  pub modify-All_found {κ μ} :
      {E : Type κ} (P : A → Type μ) (missing : E) (p : A → Bool) (f : A → A) (xs : List A) (b a : A)
      (ys : List A)
      → find_row p xs ≡ some b
      → P (f b)
      → All P xs
      → modify missing p f xs ≡ ok (a, ys)
      → All P ys
  unfolding find_row modify
  modify-All_found P missing p f [] b a ys found w all e = cc
  modify-All_found P missing p f (x ∷ xs) b a ys found w all e = elim (Bool-cases (p x)) [
    | inl t ↦
        let same : b ≡ x = ground arith in
        let row : f x ∷ xs ≡ ys = ground arith in
        subst (All P) row (subst (λ y. P (f y)) same w, all.1)
    | inr t ↦
        let (r, q, s) =
          >>=-eq-ok {B = A × List A} (modify missing p f xs) (λ r. ok (r.0, x ∷ r.1)) {b = (a, ys)}
            (ground arith) in
        let row : x ∷ r.1 ≡ ys = ground arith in
        subst (All P) row
          (all.0, modify-All_found P missing p f xs b r.0 r.1 (ground arith) w all.1 q)
  ]

  -- A write that keeps a key of the rows keeps the list of the keys.
  pub modify-map {κ} :
      {E : Type κ} {K : Type 0} (key : A → K) (missing : E) (p : A → Bool) (f : A → A) (xs : List A)
      (a : A) (ys : List A)
      → ((x : A) → key (f x) ≡ key x)
      → modify missing p f xs ≡ ok (a, ys)
      → map key ys ≡ map key xs
  unfolding modify
  modify-map key missing p f [] a ys keeps e = cc
  modify-map key missing p f (x ∷ xs) a ys keeps e = elim (Bool-cases (p x)) [
    | inl t ↦
        let row : f x ∷ xs ≡ ys = ground arith in
        subst (λ zs. map key zs ≡ map key (x ∷ xs)) row (ap (λ k. k ∷ map key xs) (keeps x))
    | inr t ↦
        let (r, q, s) =
          >>=-eq-ok {B = A × List A} (modify missing p f xs) (λ r. ok (r.0, x ∷ r.1)) {b = (a, ys)}
            (ground arith) in
        let row : x ∷ r.1 ≡ ys = ground arith in
        subst (λ zs. map key zs ≡ map key (x ∷ xs)) row
          (ap (λ ks. key x ∷ ks) (modify-map key missing p f xs r.0 r.1 keeps q))
  ]
