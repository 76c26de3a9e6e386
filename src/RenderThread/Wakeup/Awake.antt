-- ===== src/RenderThread/Wakeup/Awake.antt =====
-- No wake-up is lost (libs/hwui/renderthread/RenderThread.cpp): while the thread sleeps, a task that
-- is due before the deadline has a wake pending.
use f2ut_platform_frameworks.Prelude.{List, [], false, inl, inr, length, subst, ℕ, ◌<◌, ◌≡◌, sym}
use f2ut_platform_frameworks.Prelude.Int.{ℤ}
use f2ut_platform_frameworks.RenderThread.TaskQueue.Lists.{IsSorted}
use f2ut_platform_frameworks.RenderThread.TaskQueue.Queue.{Holds}
use f2ut_platform_frameworks.RenderThread.Wakeup.{
  Enough, Phase, Reach, RenderThread, Step, World, here, is_woken, next_task, polling,
  puts_at_front, queues, queues_at, removes, running, runs, sleeps, step, times_out,
}
use f2ut_platform_frameworks.RenderThread.Wakeup.Rested.{AllFrom, Inv, Rested, Segment-unique}
use f2ut_platform_frameworks.RenderThread.Wakeup.Kept.{
  queue_task-Inv, next_task-Taken, queue_task_at-Inv, queue_task_at_front-Inv, remove_task-Inv,
}

-- Every step of any thread keeps the queue in order, and no wake-up is lost.
Step-Inv : {w w' : World} → Step w w' → Inv w → Inv w'
Step-Inv (queues w fuel task r enough real e) v = queue_task-Inv fuel task w r v enough real e
Step-Inv (queues_at w fuel task time r enough real e) v =
    queue_task_at-Inv fuel task time w r v enough real e
Step-Inv (puts_at_front w task real free other first) v =
    queue_task_at_front-Inv task w v real free other (first v.queued v.holds)
Step-Inv (removes w fuel task r us vs enough holds e) v =
    remove_task-Inv fuel task w r us vs v enough holds e
Step-Inv (runs w now p e) v =
    let (ys, holds, sorted, rested) = next_task-Taken now w.thread v.queued v.holds v.sorted in
    record {
      queued = ys;
      holds = holds;
      sorted = sorted;
      rested = subst (λ z. Rested z (next_task now w.thread).0 ys) (sym p) tt;
    }
Step-Inv (sleeps w now p e) v =
    let (ys, holds, sorted, rested) = next_task-Taken now w.thread v.queued v.holds v.sorted in
    record { queued = ys; holds = holds; sorted = sorted; rested = rested e }
Step-Inv (is_woken w deadline p e) v = record {
  queued = v.queued;
  holds = v.holds;
  sorted = v.sorted;
  rested = tt;
}
Step-Inv (times_out w deadline now p e) v = record {
  queued = v.queued;
  holds = v.holds;
  sorted = v.sorted;
  rested = tt;
}

Reach-Inv : {w w' : World} → Reach w w' → Inv w → Inv w'
Reach-Inv here v = v
Reach-Inv (step r st) v = Step-Inv st (Reach-Inv r v)

Rested-due :
    (p : Phase) (s : RenderThread) (xs : List ℕ) (d : ℤ)
    → p ≡ polling d
    → s.woken ≡ false
    → Rested p s xs
    → AllFrom s.tasks.run_at d xs
Rested-due running s xs d e asleep r = cc
Rested-due (polling d') s xs d e asleep (inl w) = cc
Rested-due (polling d') s xs d e asleep (inr (a, _, _)) =
    let same : d' ≡ d = cc in subst (λ z. AllFrom s.tasks.run_at z xs) same a

-- From a start with an empty queue and a running thread, after any sequence of the thread's own
-- steps and of these calls of any thread: queue and queueAt with a task that is not null, with fuel
-- for the queue's tasks, where the call is not fatal; queueAtFront with a task that is not null, is
-- not linked to a next one and is not the last one, and that no task of the queue is due before;
-- and remove with a task of the queue. Then, while the thread sleeps with no wake pending, the tasks
-- of the queue are linked in order of their due times, and none of them is due before the deadline
-- of the sleep. Calls of queueAtFront while a task is due earlier, and of remove with a task that
-- is not in the queue, are left out.
pub Reach-awake :
    (w w' : World) (d : ℤ)
    → Holds w.thread.tasks []
    → w.phase ≡ running
    → Reach w w'
    → w'.phase ≡ polling d
    → w'.thread.woken ≡ false
    → (xs : List ℕ) × Holds w'.thread.tasks xs
      × IsSorted w'.thread.tasks.run_at xs
      × AllFrom w'.thread.tasks.run_at d xs
Reach-awake w w' d holds start reach sleeping asleep =
    let v : Inv w' = Reach-Inv reach (record {
      queued = [];
      holds = holds;
      sorted = tt;
      rested = subst (λ p. Rested p w.thread []) (sym start) tt;
    }) in
    (v.queued, v.holds, v.sorted, Rested-due w'.phase w'.thread v.queued d sleeping asleep v.rested)

-- More fuel than the tasks that the queue is known to hold.
pub Enough-of :
    (fuel : ℕ) (s : RenderThread) (xs : List ℕ)
    → Holds s.tasks xs
    → length xs < fuel
    → Enough fuel s
Enough-of fuel s xs holds h ys other =
    subst (λ z. length z < fuel)
      (Segment-unique s.tasks.links s.tasks.head xs ys holds.segment other.segment) h
