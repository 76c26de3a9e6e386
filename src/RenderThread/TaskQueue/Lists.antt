-- ===== src/RenderThread/TaskQueue/Lists.antt =====
-- The queue as a list of tasks: what the operations of TaskQueue
-- (libs/hwui/renderthread/RenderThread.cpp) mean.
use f2ut_platform_frameworks.Prelude.{
  Bool-cases, List, [], arith, if◌then◌else◌, inl, inr, true, ℕ, ◌==◌, ◌++◌, ◌∷◌, ◌≡◌, ◌≢◌, false,
  refl, ap,
}
use f2ut_platform_frameworks.Prelude.Int.{ℤ}
use f2ut_platform_frameworks.RenderThread.TaskQueue.{leq}

-- A task is not in a list.
abbrev pub Absent : ℕ → List ℕ → Type 0
Absent a [] = Unit {0}
Absent a (x ∷ xs) = (a ≢ x) × Absent a xs

abbrev pub Distinct : List ℕ → Type 0
Distinct [] = Unit {0}
Distinct (x ∷ xs) = Absent x xs × Distinct xs

-- The last task, or `p`.
abbrev pub last_or : ℕ → List ℕ → ℕ
last_or p [] = p
last_or p (x ∷ xs) = last_or x xs

-- Behind every task that is due no later.
abbrev pub insert : (ℕ → ℤ) → ℕ → List ℕ → List ℕ
insert run_at t [] = t ∷ []
insert run_at t (x ∷ xs) = if leq (run_at x) (run_at t) then x ∷ insert run_at t xs else t ∷ x ∷ xs

abbrev pub delete : ℕ → List ℕ → List ℕ
delete t [] = []
delete t (x ∷ xs) = if x == t then xs else x ∷ delete t xs

-- No task of the list is due before `x`.
abbrev pub NoneBefore : (ℕ → ℤ) → ℕ → List ℕ → Type 0
NoneBefore run_at x [] = Unit {0}
NoneBefore run_at x (y ∷ ys) = (leq (run_at x) (run_at y) ≡ true) × NoneBefore run_at x ys

abbrev pub IsSorted : (ℕ → ℤ) → List ℕ → Type 0
IsSorted run_at [] = Unit {0}
IsSorted run_at (x ∷ xs) = NoneBefore run_at x xs × IsSorted run_at xs

leq_trans : (a b c : ℤ) → leq a b ≡ true → leq b c ≡ true → leq a c ≡ true
leq_trans a b c h k = ground arith

leq_total : (a b : ℤ) → leq a b ≡ false → leq b a ≡ true
leq_total a b h = ground arith

module _ (run_at : ℕ → ℤ) where
  NoneBefore-weaken :
      (x y : ℕ) (xs : List ℕ)
      → leq (run_at x) (run_at y) ≡ true
      → NoneBefore run_at y xs
      → NoneBefore run_at x xs
  NoneBefore-weaken x y [] h k = tt
  NoneBefore-weaken x y (z ∷ zs) h (k, ks) =
      (leq_trans (run_at x) (run_at y) (run_at z) h k, NoneBefore-weaken x y zs h ks)

  NoneBefore-insert :
      (x t : ℕ) (xs : List ℕ)
      → leq (run_at x) (run_at t) ≡ true
      → NoneBefore run_at x xs
      → NoneBefore run_at x (insert run_at t xs)
  NoneBefore-insert x t [] h k = (h, tt)
  NoneBefore-insert x t (y ∷ ys) h (k, ks) = elim (Bool-cases (leq (run_at y) (run_at t))) [
    | inl before ↦ rw before (k, NoneBefore-insert x t ys h ks)
    | inr after ↦ rw after (h, (k, ks))
  ]

  -- An insertion keeps the order.
  pub insert-IsSorted :
      (t : ℕ) (xs : List ℕ) → IsSorted run_at xs → IsSorted run_at (insert run_at t xs)
  insert-IsSorted t [] s = (tt, tt)
  insert-IsSorted t (x ∷ xs) (h, s) = elim (Bool-cases (leq (run_at x) (run_at t))) [
    | inl before ↦ rw before (NoneBefore-insert x t xs before h, insert-IsSorted t xs s)
    | inr after ↦
        let first = leq_total (run_at x) (run_at t) after in
        rw after ((first, NoneBefore-weaken t x xs first h), (h, s))
  ]

  NoneBefore-last :
      (x : ℕ) (xs : List ℕ) → NoneBefore run_at x xs → leq (run_at x) (run_at (last_or x xs)) ≡ true
  NoneBefore-last x [] h = ground arith
  NoneBefore-last x (y ∷ []) h = h.0
  NoneBefore-last x (y ∷ z ∷ zs) h = NoneBefore-last x (z ∷ zs) h.1

  -- In a sorted list, a task that is due no earlier than the last one goes to the end.
  pub insert_last :
      (t x : ℕ) (xs : List ℕ)
      → IsSorted run_at (x ∷ xs)
      → leq (run_at (last_or x xs)) (run_at t) ≡ true
      → insert run_at t (x ∷ xs) ≡ (x ∷ xs) ++ (t ∷ [])
  insert_last t x [] s late = rw late refl
  insert_last t x (y ∷ ys) (h, s) late =
      let first =
        leq_trans (run_at x) (run_at (last_or y ys)) (run_at t) (NoneBefore-last x (y ∷ ys) h)
          late in
      rw first (ap (λ zs. x ∷ zs) (insert_last t y ys s late))
