-- ===== src/RenderThread/Wakeup/Tests.antt =====
-- The render thread's queue and its sleep at concrete tasks.
use f2ut_platform_frameworks.Prelude.{
  List, [], arith, false, if◌then◌else◌, refl, ℕ, ◌==◌, ◌∷◌, ◌≡◌, ◌≢◌, ◌+◌,
}
use f2ut_platform_frameworks.Prelude.Int.{pos, ℤ}
use f2ut_platform_frameworks.RenderThread.TaskQueue
use f2ut_platform_frameworks.RenderThread.TaskQueue.{
  Outcome, TaskQueue, done, empty_queue, fatal, leq, peek,
}
use f2ut_platform_frameworks.RenderThread.TaskQueue.Links.{head_or}
use f2ut_platform_frameworks.RenderThread.TaskQueue.Lists.{Absent, IsSorted, insert}
use f2ut_platform_frameworks.RenderThread.TaskQueue.Queue.{Holds, Returns, queue-insert}
use f2ut_platform_frameworks.RenderThread.TaskQueue.Remove.{queue-remove_fatal, remove-Holds}
use f2ut_platform_frameworks.RenderThread.Wakeup.{
  Reach, RenderThread, here, next_task, polling, queue_task, queues, running, sleeps, step,
  wake_for,
}
use f2ut_platform_frameworks.RenderThread.Wakeup.Awake.{Enough-of, Reach-awake}
use f2ut_platform_frameworks.RenderThread.Wakeup.Rested.{AllFrom}

-- Tasks 1, 2 and 3, due at 10, 20 and 30, and task 4, due at 20.
abbrev due : ℕ → ℤ
due a = if a == 4 then pos 20 else pos (a + a + a + a + a + a + a + a + a + a)

abbrev three : TaskQueue
three = record {
  links = λ a. if a == 1 then 2 else if a == 2 then 3 else 0;
  run_at = due;
  head = 1;
  tail = 3;
}

three-Holds : Holds three (1 ∷ 2 ∷ 3 ∷ [])
three-Holds = record {
  segment = (refl, omega arith, (refl, omega arith, (refl, omega arith, refl)));
  tail = refl;
  distinct = ((omega arith, (omega arith, tt)), ((omega arith, tt), (tt, tt)));
}

queue-insert_example : Returns (TaskQueue.queue 4 4 three) (λ r.
    Holds r (insert due 4 (1 ∷ 2 ∷ 3 ∷ []))
    × IsSorted due (insert due 4 (1 ∷ 2 ∷ 3 ∷ []))
    × (r.run_at ≡ due))
queue-insert_example =
    queue-insert 4 4 three (1 ∷ 2 ∷ 3 ∷ []) three-Holds ((refl, (refl, tt)), ((refl, tt), (tt, tt)))
      (omega arith) refl (omega arith, (omega arith, (omega arith, tt))) (omega arith)

remove-Holds_example : Returns (TaskQueue.remove 4 3 three) (λ r.
    Holds r (1 ∷ 2 ∷ [])
    × (◌≢◌ {A = List ℕ} (1 ∷ 2 ∷ []) [] → r.links 3 ≡ head_or 0 [])
    × (r.run_at ≡ due))
remove-Holds_example = remove-Holds 4 3 three (1 ∷ 2 ∷ []) [] three-Holds (omega arith)

queue-remove_fatal_example :
    Returns
      (TaskQueue.remove 4 2 three)
      (λ r. Holds r (1 ∷ 3 ∷ []) × Absent 2 (1 ∷ 3 ∷ []) × (TaskQueue.queue 9 2 r ≡ fatal))
queue-remove_fatal_example = queue-remove_fatal 4 9 2 three 1 3 [] [] three-Holds (omega arith)

-- A thread without tasks, one with task 1, and one with tasks 1 and 3.
abbrev nobody : RenderThread
nobody = record {
  tasks = record { links = λ a. 0; run_at = due; head = 0; tail = 0 };
  next_wakeup = pos 0;
  woken = false;
}

abbrev with_one : RenderThread
with_one = record {
  tasks = record { links = λ a. 0; run_at = due; head = 1; tail = 1 };
  next_wakeup = pos 0;
  woken = false;
}

abbrev asleep_for_one : RenderThread
asleep_for_one = record with_one { next_wakeup = pos 10 }

abbrev with_two : RenderThread
with_two = record {
  tasks = record { links = λ a. if a == 1 then 3 else 0; run_at = due; head = 1; tail = 3 };
  next_wakeup = pos 10;
  woken = false;
}

nobody-Holds : Holds nobody.tasks []
nobody-Holds = record { segment = refl; tail = refl; distinct = tt }

with_one-Holds : Holds with_one.tasks (1 ∷ [])
with_one-Holds = record { segment = (refl, omega arith, refl); tail = refl; distinct = (tt, tt) }

-- Task 1 is posted, the thread goes to sleep until it is due, and task 3 is posted meanwhile.
posted_and_slept :
    Reach
      (record { thread = nobody; phase = running })
      (record { thread = with_two; phase = polling (pos 10) })
unfolding queue_task wake_for next_task peek TaskQueue.queue
posted_and_slept =
    step
      (step
        (step here (
          queues _ 1 1 with_one (Enough-of 1 nobody [] nobody-Holds (omega arith)) (omega arith)
            refl))
        (sleeps (record { thread = with_one; phase = running }) (pos 3) refl refl))
      (queues (record { thread = asleep_for_one; phase = polling (pos 10) }) 2 3 with_two
        (Enough-of 2 asleep_for_one (1 ∷ []) with_one-Holds (omega arith)) (omega arith) refl)

Reach-awake_example :
    (xs : List ℕ) × Holds with_two.tasks xs × IsSorted due xs × AllFrom due (pos 10) xs
Reach-awake_example =
    Reach-awake (record { thread = nobody; phase = running })
      (record { thread = with_two; phase = polling (pos 10) }) (pos 10) nobody-Holds refl
      posted_and_slept refl refl
