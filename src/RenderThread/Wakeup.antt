-- ===== src/RenderThread/Wakeup.antt =====
-- RenderThread of libs/hwui/renderthread/RenderThread.cpp: posting tasks, taking the next one, and
-- the sleep of threadLoop between them. Times are integers. Looper::wake is a flag that the next
-- poll finds; a wake ends a poll, and so does its deadline, which threadLoop takes from nextTask.
-- The conversion of the deadline to milliseconds and the frame callbacks are not modelled; what
-- threadLoop posts there counts as a call by anybody.
pub mod Rested
pub mod Kept
pub mod Awake
pub mod Tests
use f2ut_platform_frameworks.Prelude.{
  Bool, List, Option, false, if◌then◌else◌, length, ltb, none, not, some, true, ℕ, ◌&&◌, ◌<◌, ◌==◌,
  ◌≡◌, ◌≢◌, ◌||◌, nonzero, ◌^◌, ◌-◌, ◌+◌, ◌++◌, ◌∷◌,
}
use f2ut_platform_frameworks.Prelude.Int.{ltb_ℤ, neg_part, pos, pos_part, ℤ}
use f2ut_platform_frameworks.RenderThread.TaskQueue
use f2ut_platform_frameworks.RenderThread.TaskQueue.{
  Outcome, TaskQueue, done, leq, peek, queue_at_front,
}
use f2ut_platform_frameworks.RenderThread.TaskQueue.Lists.{NoneBefore}
use f2ut_platform_frameworks.RenderThread.TaskQueue.Queue.{Holds}

-- mQueue, mNextWakeup, and whether the looper has a wake pending.
pub record RenderThread : Type 0 where
  pub tasks : TaskQueue
  pub next_wakeup : ℤ
  pub woken : Bool

-- LLONG_MAX
abbrev pub llong_max : ℤ
llong_max = pos (2 ^ 63 - 1)

abbrev pub nonzero_ℤ : ℤ → Bool
nonzero_ℤ z = nonzero (pos_part z) || nonzero (neg_part z)

-- The test behind mQueue.queue, and the wake.
unfoldable pub wake_for : ℕ → RenderThread → RenderThread
wake_for task s =
    if nonzero_ℤ s.next_wakeup && ltb_ℤ (s.tasks.run_at task) s.next_wakeup
    then record s { next_wakeup = pos 0; woken = true }
    else s

-- A call of the queue that returns, and what follows it.
abbrev pub returned : Outcome → (TaskQueue → RenderThread) → Option RenderThread
returned (done q) rest = some (rest q)
returned _ rest = none

-- RenderThread::queue; `none` if mQueue.queue does not return.
unfoldable pub queue_task : ℕ → ℕ → RenderThread → Option RenderThread
queue_task fuel task s =
    returned (TaskQueue.queue fuel task s.tasks) (λ q. wake_for task (record s { tasks = q }))

unfoldable pub queue_task_at_front : ℕ → RenderThread → RenderThread
queue_task_at_front task s = record s { tasks = queue_at_front task s.tasks; woken = true }

-- `task->mRunAt = runAtNs`
abbrev pub set_run_at : ℕ → ℤ → RenderThread → RenderThread
set_run_at task time s = record s {
  tasks = record s.tasks { run_at = λ a. if a == task then time else s.tasks.run_at a };
}

unfoldable pub queue_task_at : ℕ → ℕ → ℤ → RenderThread → Option RenderThread
unfolding queue_task
queue_task_at fuel task time s = queue_task fuel task (set_run_at task time s)

unfoldable pub remove_task : ℕ → ℕ → RenderThread → Option RenderThread
remove_task fuel task s =
    returned (TaskQueue.remove fuel task s.tasks) (λ q. record s { tasks = q })

-- RenderThread::nextTask at a time: the task, or NULL. `*nextWakeup` is the new mNextWakeup.
unfoldable pub next_task : ℤ → RenderThread → RenderThread × ℕ
next_task now s =
    let head = peek s.tasks in
    if head == 0
    then (record s { next_wakeup = llong_max }, 0)
    else (let at = s.tasks.run_at head in
        if leq at (pos 0) || leq at now
        then (
          record s { tasks = (TaskQueue.next s.tasks).0; next_wakeup = at },
          (TaskQueue.next s.tasks).1,
        )
        else (record s { next_wakeup = at }, 0))

-- Where threadLoop is: between two calls of nextTask, or behind one that gave NULL, in the poll or
-- on the way to it, with the deadline that it gave.
pub data Phase : Type 0 where
  running : Phase
  polling : ℤ → Phase

pub record World : Type 0 where
  pub thread : RenderThread
  pub phase : Phase

-- The fuel exceeds the number of tasks in the queue.
abbrev pub Enough : ℕ → RenderThread → Type 0
Enough fuel s = (xs : List ℕ) → Holds s.tasks xs → length xs < fuel

-- Any thread may post and remove tasks at any time. A task is put at the front only if no task of
-- the queue is due before it, as those of mRunAt 0 are, and if it is not queued already; a task is
-- removed only if it is queued.
pub data Step : World → World → Type 0 where
  queues :
      (w : World) (fuel task : ℕ) (r : RenderThread)
      → Enough fuel w.thread
      → task ≢ 0
      → queue_task fuel task w.thread ≡ some r
      → Step w (record w { thread = r })
  puts_at_front :
      (w : World) (task : ℕ)
      → task ≢ 0
      → w.thread.tasks.links task ≡ 0
      → w.thread.tasks.tail ≢ task
      → ((xs : List ℕ) → Holds w.thread.tasks xs → NoneBefore w.thread.tasks.run_at task xs)
      → Step w (record w { thread = queue_task_at_front task w.thread })
  queues_at :
      (w : World) (fuel task : ℕ) (time : ℤ) (r : RenderThread)
      → Enough fuel w.thread
      → task ≢ 0
      → queue_task_at fuel task time w.thread ≡ some r
      → Step w (record w { thread = r })
  removes :
      (w : World) (fuel task : ℕ) (r : RenderThread) (us vs : List ℕ)
      → Enough fuel w.thread
      → Holds w.thread.tasks (us ++ (task ∷ vs))
      → remove_task fuel task w.thread ≡ some r
      → Step w (record w { thread = r })
  runs :
      (w : World) (now : ℤ)
      → w.phase ≡ running
      → (next_task now w.thread).1 ≢ 0
      → Step w (record w { thread = (next_task now w.thread).0 })
  sleeps :
      (w : World) (now : ℤ)
      → w.phase ≡ running
      → (next_task now w.thread).1 ≡ 0
      → Step w (record {
        thread = (next_task now w.thread).0;
        phase = polling (next_task now w.thread).0.next_wakeup;
      })
  is_woken :
      (w : World) (deadline : ℤ)
      → w.phase ≡ polling deadline
      → w.thread.woken ≡ true
      → Step w (record { thread = record w.thread { woken = false }; phase = running })
  times_out :
      (w : World) (deadline now : ℤ)
      → w.phase ≡ polling deadline
      → leq deadline now ≡ true
      → Step w (record w { phase = running })

pub data Reach (s : World) : World → Type 0 where
  here : Reach s s
  step : {t u : World} → Reach s t → Step t u → Reach s u
