-- ===== src/RenderThread/Wakeup/Rested.antt =====
-- The invariant of the sleep (libs/hwui/renderthread/RenderThread.cpp): due times of the tasks in
-- the queue, and what keeps a sleeping thread from missing one.
use f2ut_platform_frameworks.Prelude.{
  Bool-cases, List, [], arith, inl, inr, nonzero, refl, some, subst, true, ℕ, ◌&&◌, ◌++◌, ◌==◌, ◌∙◌,
  ◌∷◌, ◌≡◌, ◌≢◌, ◌||◌, ap, sym, ◌⊎◌,
}
use f2ut_platform_frameworks.Prelude.Int.{ltb_ℤ, ℤ}
use f2ut_platform_frameworks.RenderThread.TaskQueue
use f2ut_platform_frameworks.RenderThread.TaskQueue.{
  Outcome, TaskQueue, done, leq, peek, queue_at_front,
}
use f2ut_platform_frameworks.RenderThread.TaskQueue.Links.{Segment}
use f2ut_platform_frameworks.RenderThread.TaskQueue.Lists.{
  Absent, IsSorted, NoneBefore, insert, last_or,
}
use f2ut_platform_frameworks.RenderThread.TaskQueue.Queue.{Holds, Returns}
use f2ut_platform_frameworks.RenderThread.Wakeup.{
  Phase, RenderThread, World, nonzero_ℤ, polling, returned, running, wake_for,
}

-- No task of the list is due before a time.
abbrev pub AllFrom : (ℕ → ℤ) → ℤ → List ℕ → Type 0
AllFrom run_at time [] = Unit {0}
AllFrom run_at time (x ∷ xs) = (leq time (run_at x) ≡ true) × AllFrom run_at time xs

-- A sleeping thread has a wake pending, or sleeps no longer than until the first task is due.
abbrev pub Rested : Phase → RenderThread → List ℕ → Type 0
Rested running s xs = Unit {0}
Rested (polling d) s xs =
    (s.woken ≡ true) ⊎ (AllFrom s.tasks.run_at d xs × (s.next_wakeup ≡ d) × (nonzero_ℤ d ≡ true))

pub record Inv (w : World) : Type 0 where
  pub queued : List ℕ
  pub holds : Holds w.thread.tasks queued
  pub sorted : IsSorted w.thread.tasks.run_at queued
  pub rested : Rested w.phase w.thread queued

pub returned_inv :
    (o : Outcome) (f : TaskQueue → RenderThread) (r : RenderThread) (P : TaskQueue → Type 0)
    → Returns o P
    → returned o f ≡ some r
    → (q : TaskQueue) × P q × (f q ≡ r)
returned_inv (done q) f r P p e = (q, p, cc)
returned_inv _ f r P p e = absurd p

-- A task with no link that is not the last one is not in the queue.
pub Segment-Absent :
    (f : ℕ → ℕ) (t p : ℕ) (xs : List ℕ)
    → Segment f p xs
    → f t ≡ 0
    → (xs ≢ [] → last_or 0 xs ≢ t)
    → Absent t xs
Segment-Absent f t p [] s free last = tt
Segment-Absent f t p (x ∷ []) s free last = ((λ e. last (λ h. cc) (sym e)), tt)
Segment-Absent f t p (x ∷ y ∷ ys) (e, nz, s) free last = (
  (λ same. s.1 (sym s.0 ∙ (ap f (sym same) ∙ free))),
  Segment-Absent f t (f x) (y ∷ ys) s free (λ h. last (λ k. cc)),
)

pub Holds-Absent :
    (t : ℕ) (q : TaskQueue) (xs : List ℕ) → Holds q xs → q.links t ≡ 0 → q.tail ≢ t → Absent t xs
Holds-Absent t q xs holds free other =
    Segment-Absent q.links t q.head xs holds.segment free (λ h e. other (holds.tail ∙ e))

-- `queue` returns only for such a task.
pub queue_fresh :
    (fuel t : ℕ) (q : TaskQueue) (f : TaskQueue → RenderThread) (r : RenderThread)
    → returned (TaskQueue.queue fuel t q) f ≡ some r
    → (q.links t ≡ 0) × (q.tail ≢ t)
unfolding TaskQueue.queue
queue_fresh fuel t q f r e = elim (Bool-cases (nonzero (q.links t) || q.tail == t)) [
  | inl queued ↦ let stuck = rw queued at e in cc
  | inr fresh ↦ (ground arith, ground arith)
]

pub Segment-unique :
    (f : ℕ → ℕ) (p : ℕ) (xs ys : List ℕ) → Segment f p xs → Segment f p ys → xs ≡ ys
Segment-unique f p [] [] s t = refl
Segment-unique f p [] (y ∷ ys) s (e, nz, t) = absurd (nz (sym e ∙ s))
Segment-unique f p (x ∷ xs) [] (e, nz, s) t = absurd (nz (sym e ∙ t))
Segment-unique f p (x ∷ xs) (y ∷ ys) (e, nz, s) (e', nz', t) =
    let same = sym e ∙ e' in
    let rest = Segment-unique f (f x) xs ys s (subst (λ a. Segment f (f a) ys) (sym same) t) in cc

pub leq_refl : (a : ℤ) → leq a a ≡ true
leq_refl a = ground arith

module _ (run_at : ℕ → ℤ) where
  pub AllFrom-insert :
      (d : ℤ) (t : ℕ) (xs : List ℕ)
      → leq d (run_at t) ≡ true
      → AllFrom run_at d xs
      → AllFrom run_at d (insert run_at t xs)
  AllFrom-insert d t [] h a = (h, tt)
  AllFrom-insert d t (x ∷ xs) h (b, a) = elim (Bool-cases (leq (run_at x) (run_at t))) [
    | inl before ↦ rw before (b, AllFrom-insert d t xs h a)
    | inr later ↦ rw later (h, (b, a))
  ]

  pub AllFrom-delete :
      (d : ℤ) (t : ℕ) (us vs : List ℕ)
      → AllFrom run_at d (us ++ (t ∷ vs))
      → AllFrom run_at d (us ++ vs)
  AllFrom-delete d t [] vs a = a.1
  AllFrom-delete d t (u ∷ us) vs a = (a.0, AllFrom-delete d t us vs a.1)

  pub NoneBefore-delete :
      (x t : ℕ) (us vs : List ℕ)
      → NoneBefore run_at x (us ++ (t ∷ vs))
      → NoneBefore run_at x (us ++ vs)
  NoneBefore-delete x t [] vs a = a.1
  NoneBefore-delete x t (u ∷ us) vs a = (a.0, NoneBefore-delete x t us vs a.1)

  pub IsSorted-delete :
      (t : ℕ) (us vs : List ℕ) → IsSorted run_at (us ++ (t ∷ vs)) → IsSorted run_at (us ++ vs)
  IsSorted-delete t [] vs s = s.1
  IsSorted-delete t (u ∷ us) vs s = (NoneBefore-delete u t us vs s.0, IsSorted-delete t us vs s.1)

  -- The head of a sorted list is due first.
  pub AllFrom-head : (x : ℕ) (xs : List ℕ) → NoneBefore run_at x xs → AllFrom run_at (run_at x) xs
  AllFrom-head x [] h = tt
  AllFrom-head x (y ∷ ys) h = (h.0, AllFrom-head x ys h.1)

-- The wake behind a posted task.
pub wake_for-Rested :
    (p : Phase) (s : RenderThread) (t : ℕ) (xs : List ℕ)
    → Rested p s xs
    → Rested p (wake_for t s) (insert s.tasks.run_at t xs)
unfolding wake_for
wake_for-Rested running s t xs r = tt
wake_for-Rested (polling d) s t xs (inl w) =
    elim (Bool-cases (nonzero_ℤ s.next_wakeup && ltb_ℤ (s.tasks.run_at t) s.next_wakeup)) [
      | inl sooner ↦ rw sooner (inl refl)
      | inr later ↦ rw later (inl w)
    ]
wake_for-Rested (polling d) s t xs (inr (a, e, nz)) =
    elim (Bool-cases (nonzero_ℤ s.next_wakeup && ltb_ℤ (s.tasks.run_at t) s.next_wakeup)) [
      | inl sooner ↦ rw sooner (inl refl)
      | inr later ↦
          let live : nonzero_ℤ s.next_wakeup ≡ true = ap nonzero_ℤ e ∙ nz in
          let due : leq s.next_wakeup (s.tasks.run_at t) ≡ true = ground arith in
          let at_d : leq d (s.tasks.run_at t) ≡ true =
            ap (λ z. leq z (s.tasks.run_at t)) (sym e) ∙ due in
          rw later (inr (AllFrom-insert s.tasks.run_at d t xs at_d a, e, nz))
    ]

pub wake_for-tasks : (t : ℕ) (s : RenderThread) → (wake_for t s).tasks ≡ s.tasks
unfolding wake_for
wake_for-tasks t s =
    elim (Bool-cases (nonzero_ℤ s.next_wakeup && ltb_ℤ (s.tasks.run_at t) s.next_wakeup)) [
      | inl sooner ↦ rw sooner refl
      | inr later ↦ rw later refl
    ]

-- The same thread, with other due times of its tasks.
pub Rested-run_at :
    (p : Phase) (s : RenderThread) (q : TaskQueue) (xs : List ℕ)
    → ((d : ℤ) → AllFrom s.tasks.run_at d xs → AllFrom q.run_at d xs)
    → Rested p s xs
    → Rested p (record s { tasks = q }) xs
Rested-run_at running s q xs f r = tt
Rested-run_at (polling d) s q xs f (inl w) = inl w
Rested-run_at (polling d) s q xs f (inr (a, e, nz)) = inr (f d a, e, nz)

pub woken-Rested : (p : Phase) (s : RenderThread) (xs : List ℕ) → s.woken ≡ true → Rested p s xs
woken-Rested running s xs h = tt
woken-Rested (polling d) s xs h = inl h

pub queue_at_front-run_at : (t : ℕ) (q : TaskQueue) → (queue_at_front t q).run_at ≡ q.run_at
unfolding queue_at_front
queue_at_front-run_at t q = elim (Bool-cases (nonzero q.tail)) [
  | inl some_tail ↦ rw some_tail refl
  | inr no_tail ↦ rw no_tail refl
]

pub Rested-delete :
    (p : Phase) (s : RenderThread) (q : TaskQueue) (t : ℕ) (us vs : List ℕ)
    → s.tasks.run_at ≡ q.run_at
    → Rested p s (us ++ (t ∷ vs))
    → Rested p (record s { tasks = q }) (us ++ vs)
Rested-delete running s q t us vs same r = tt
Rested-delete (polling d) s q t us vs same (inl w) = inl w
Rested-delete (polling d) s q t us vs same (inr (a, e, nz)) =
    inr
      (subst (λ f. AllFrom f d (us ++ vs)) same (AllFrom-delete s.tasks.run_at d t us vs a), e, nz)
