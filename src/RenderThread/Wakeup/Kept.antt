-- ===== src/RenderThread/Wakeup/Kept.antt =====
-- What each call keeps of the queue and of the looper's wake
-- (libs/hwui/renderthread/RenderThread.cpp).
use f2ut_platform_frameworks.Prelude.{
  Bool-cases, List, [], arith, false, inl, inr, length-append, refl, some, subst, true, ℕ, ◌++◌,
  ◌==◌, ◌∙◌, ◌∷◌, ◌≡◌, ◌≢◌, ◌||◌, ap, sym,
}
use f2ut_platform_frameworks.Prelude.Int.{pos, ℤ}
use f2ut_platform_frameworks.RenderThread.TaskQueue
use f2ut_platform_frameworks.RenderThread.TaskQueue.{
  Outcome, TaskQueue, done, leq, peek, queue_at_front,
}
use f2ut_platform_frameworks.RenderThread.TaskQueue.Links.{head_or}
use f2ut_platform_frameworks.RenderThread.TaskQueue.Lists.{Absent, IsSorted, NoneBefore, insert}
use f2ut_platform_frameworks.RenderThread.TaskQueue.Queue.{Holds, queue-insert}
use f2ut_platform_frameworks.RenderThread.TaskQueue.Front.{next-Holds, queue_at_front-Holds}
use f2ut_platform_frameworks.RenderThread.TaskQueue.Remove.{remove-Holds}
use f2ut_platform_frameworks.RenderThread.Wakeup.{
  Enough, RenderThread, World, llong_max, next_task, nonzero_ℤ, polling, queue_task, queue_task_at,
  queue_task_at_front, remove_task, set_run_at, wake_for,
}
use f2ut_platform_frameworks.RenderThread.Wakeup.Rested.{
  AllFrom, AllFrom-head, Holds-Absent, Inv, IsSorted-delete, Rested, Rested-delete, Rested-run_at,
  Segment-unique, leq_refl, queue_at_front-run_at, queue_fresh, returned_inv, wake_for-Rested,
  wake_for-tasks, woken-Rested,
}

pub queue_task-Inv :
    (fuel t : ℕ) (w : World) (r : RenderThread)
    → Inv w
    → Enough fuel w.thread
    → t ≢ 0
    → queue_task fuel t w.thread ≡ some r
    → Inv (record w { thread = r })
unfolding queue_task
queue_task-Inv fuel t w r v enough real e =
    let s = w.thread in
    let xs = v.queued in
    let fresh = queue_fresh fuel t s.tasks (λ q. wake_for t (record s { tasks = q })) r e in
    let absent = Holds-Absent t s.tasks xs v.holds fresh.0 fresh.1 in
    let queued =
      queue-insert fuel t s.tasks xs v.holds v.sorted real fresh.0 absent (enough xs v.holds) in
    let (q, (holds, sorted, same), out) =
      returned_inv (TaskQueue.queue fuel t s.tasks) (λ q. wake_for t (record s { tasks = q })) r
        (λ q.
          Holds q (insert s.tasks.run_at t xs)
          × IsSorted s.tasks.run_at (insert s.tasks.run_at t xs)
          × (q.run_at ≡ s.tasks.run_at))
        queued e in
    let s1 = record s { tasks = q } in
    let rest1 =
      Rested-run_at w.phase s q xs (λ d a. subst (λ f. AllFrom f d xs) (sym same) a) v.rested in
    let ahead = sym (wake_for-tasks t s1) in
    subst (λ z. Inv (record w { thread = z })) out
      (record {
        queued = insert q.run_at t xs;
        holds =
            subst (λ z. Holds z (insert q.run_at t xs)) ahead
              (subst (λ f. Holds q (insert f t xs)) (sym same) holds);
        sorted =
            subst (λ z. IsSorted z.run_at (insert q.run_at t xs)) ahead
              (subst (λ f. IsSorted f (insert f t xs)) (sym same) sorted);
        rested = wake_for-Rested w.phase s1 t xs rest1;
      })

module _ (f g : ℕ → ℤ) (t : ℕ) (agree : (a : ℕ) → a ≢ t → g a ≡ f a) where
  AllFrom-agree : (d : ℤ) (xs : List ℕ) → Absent t xs → AllFrom f d xs → AllFrom g d xs
  AllFrom-agree d [] h a = tt
  AllFrom-agree d (x ∷ xs) (ne, h) (b, a) =
      (rw (agree x (λ e. ne (sym e))) b, AllFrom-agree d xs h a)

  NoneBefore-agree :
      (x : ℕ) (xs : List ℕ) → x ≢ t → Absent t xs → NoneBefore f x xs → NoneBefore g x xs
  NoneBefore-agree x [] nx h a = tt
  NoneBefore-agree x (y ∷ ys) nx (ne, h) (b, a) =
      (rw (agree x nx, agree y (λ e. ne (sym e))) b, NoneBefore-agree x ys nx h a)

  IsSorted-agree : (xs : List ℕ) → Absent t xs → IsSorted f xs → IsSorted g xs
  IsSorted-agree [] h s = tt
  IsSorted-agree (x ∷ xs) (ne, h) (b, s) =
      (NoneBefore-agree x xs (λ e. ne (sym e)) h b, IsSorted-agree xs h s)

-- Setting the time of a task that is not queued.
set_run_at-Inv :
    (t : ℕ) (time : ℤ) (w : World) (v : Inv w)
    → Absent t v.queued
    → Inv (record w { thread = set_run_at t time w.thread })
set_run_at-Inv t time w v absent =
    let f = w.thread.tasks.run_at in
    let g = (set_run_at t time w.thread).tasks.run_at in
    let agree : ((a : ℕ) → a ≢ t → g a ≡ f a) = λ a ne. ground arith in
    record {
      queued = v.queued;
      holds = record {
        segment = v.holds.segment;
        tail = v.holds.tail;
        distinct = v.holds.distinct;
      };
      sorted = IsSorted-agree f g t agree v.queued absent v.sorted;
      rested =
          Rested-run_at w.phase w.thread (set_run_at t time w.thread).tasks v.queued
            (λ d a. AllFrom-agree f g t agree d v.queued absent a) v.rested;
    }

-- What a call of `nextTask` is to give.
abbrev pub Taken : RenderThread × ℕ → Type 0
Taken p =
    (ys : List ℕ) × Holds p.0.tasks ys
    × IsSorted p.0.tasks.run_at ys
    × (p.1 ≡ 0 → Rested (polling p.0.next_wakeup) p.0 ys)

-- `nextTask` keeps the queue in order; where it gives NULL, its deadline is the first due time.
pub next_task-Taken :
    (now : ℤ) (s : RenderThread) (xs : List ℕ)
    → Holds s.tasks xs
    → IsSorted s.tasks.run_at xs
    → Taken (next_task now s)
unfolding next_task peek
next_task-Taken now s [] holds sorted =
    let empty : (s.tasks.head == 0) ≡ true = ground (arith, holds.segment) in
    let nothing : next_task now s ≡ (record s { next_wakeup = llong_max }, 0) = rw empty refl in
    subst Taken (sym nothing) ([], holds, tt, λ e. inr (tt, refl, refl))
next_task-Taken now s (x ∷ xs) holds sorted =
    let some_task : (s.tasks.head == 0) ≡ false =
      ground (arith, holds.segment.0, holds.segment.1) in
    let popped = next-Holds s.tasks x xs holds in
    let at = s.tasks.run_at s.tasks.head in
    elim (Bool-cases (leq at (pos 0) || leq at now)) [
      | inl due ↦
          let taken : next_task now s ≡ (
            record s { tasks = (TaskQueue.next s.tasks).0; next_wakeup = at },
            (TaskQueue.next s.tasks).1,
          ) =
            rw (some_task, due) refl in
          subst Taken (sym taken) (
            xs,
            popped.1,
            subst (λ f. IsSorted f xs) (sym popped.3) sorted.1,
            λ e. absurd (holds.segment.1 (sym popped.0 ∙ e)),
          )
      | inr later ↦
          let waits : next_task now s ≡ (record s { next_wakeup = at }, 0) =
            rw (some_task, later) refl in
          let positive : nonzero_ℤ at ≡ true = ground arith in
          let from_head =
            subst (λ d. AllFrom s.tasks.run_at d (x ∷ xs)) (sym (ap s.tasks.run_at holds.segment.0))
              (leq_refl (s.tasks.run_at x), AllFrom-head s.tasks.run_at x xs sorted.0) in
          subst Taken (sym waits) (x ∷ xs, holds, sorted, λ e. inr (from_head, refl, positive))
    ]

pub queue_task_at-Inv :
    (fuel t : ℕ) (time : ℤ) (w : World) (r : RenderThread)
    → Inv w
    → Enough fuel w.thread
    → t ≢ 0
    → queue_task_at fuel t time w.thread ≡ some r
    → Inv (record w { thread = r })
unfolding queue_task_at
queue_task_at-Inv fuel t time w r v enough real e =
    let s = set_run_at t time w.thread in
    let fresh = queue_fresh fuel t s.tasks (λ q. wake_for t (record s { tasks = q })) r e in
    let absent = Holds-Absent t w.thread.tasks v.queued v.holds fresh.0 fresh.1 in
    let v' = set_run_at-Inv t time w v absent in
    let enough' : Enough fuel s =
      λ xs h. enough xs (record { segment = h.segment; tail = h.tail; distinct = h.distinct }) in
    queue_task-Inv fuel t (record w { thread = s }) r v' enough' real e

pub queue_task_at_front-Inv :
    (t : ℕ) (w : World) (v : Inv w)
    → t ≢ 0
    → w.thread.tasks.links t ≡ 0
    → w.thread.tasks.tail ≢ t
    → NoneBefore w.thread.tasks.run_at t v.queued
    → Inv (record w { thread = queue_task_at_front t w.thread })
unfolding queue_task_at_front
queue_task_at_front-Inv t w v real free other first =
    let q = w.thread.tasks in
    let absent = Holds-Absent t q v.queued v.holds free other in
    record {
      queued = t ∷ v.queued;
      holds = queue_at_front-Holds t q v.queued v.holds real free absent;
      sorted =
          subst (λ f. IsSorted f (t ∷ v.queued)) (sym (queue_at_front-run_at t q))
            (first, v.sorted);
      rested = woken-Rested w.phase _ (t ∷ v.queued) refl;
    }

pub remove_task-Inv :
    (fuel t : ℕ) (w : World) (r : RenderThread) (us vs : List ℕ)
    → Inv w
    → Enough fuel w.thread
    → Holds w.thread.tasks (us ++ (t ∷ vs))
    → remove_task fuel t w.thread ≡ some r
    → Inv (record w { thread = r })
unfolding remove_task
remove_task-Inv fuel t w r us vs v enough holds e =
    let s = w.thread in
    let same =
      Segment-unique s.tasks.links s.tasks.head v.queued (us ++ (t ∷ vs)) v.holds.segment
        holds.segment in
    let room = enough (us ++ (t ∷ vs)) holds in
    let shorter = length-append us (t ∷ vs) in
    let removed = remove-Holds fuel t s.tasks us vs holds (omega arith) in
    let (q, (kept, _, times), out) =
      returned_inv (TaskQueue.remove fuel t s.tasks) (λ q. record s { tasks = q }) r
        (λ q.
          Holds q (us ++ vs) × (us ≢ [] → q.links t ≡ head_or 0 vs) × (q.run_at ≡ s.tasks.run_at))
        removed e in
    let sorted =
      IsSorted-delete s.tasks.run_at t us vs (subst (IsSorted s.tasks.run_at) same v.sorted) in
    subst (λ z. Inv (record w { thread = z })) out
      (record {
        queued = us ++ vs;
        holds = kept;
        sorted = subst (λ f. IsSorted f (us ++ vs)) (sym times) sorted;
        rested =
            Rested-delete w.phase s q t us vs (sym times) (subst (Rested w.phase s) same v.rested);
      })
