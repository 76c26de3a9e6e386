-- ===== src/RenderThread/TaskQueue.antt =====
-- TaskQueue of libs/hwui/renderthread/RenderThread.cpp: RenderTasks linked through their mNext. A
-- task is its address, 0 is NULL. The loops run on fuel.
pub mod Lists
pub mod Links
pub mod Queue
pub mod Front
pub mod Remove
use f2ut_platform_frameworks.Prelude.{
  Bool, if◌then◌else◌, nonzero, not, suc, zero, ℕ, ◌&&◌, ◌+◌, ◌==◌, ◌||◌, ltb,
}
use f2ut_platform_frameworks.Prelude.Int.{ltb_ℤ, ℤ, pos_part, neg_part}

-- The members mNext and mRunAt of every task, and mHead and mTail.
pub record TaskQueue : Type 0 where
  pub links : ℕ → ℕ
  pub run_at : ℕ → ℤ
  pub head : ℕ
  pub tail : ℕ

pub data Outcome : Type 0 where
  done : TaskQueue → Outcome
  -- LOG_ALWAYS_FATAL
  fatal : Outcome
  -- A read through NULL.
  segfault : Outcome
  -- The fuel ran out.
  looping : Outcome

-- `a <= b` of times.
abbrev pub leq : ℤ → ℤ → Bool
leq a b = not (ltb_ℤ b a)

abbrev pub update : ℕ → ℕ → (ℕ → ℕ) → ℕ → ℕ
update p v f a = if a == p then v else f a

-- `p->mNext = v`
abbrev pub link : ℕ → ℕ → TaskQueue → TaskQueue
link p v q = record q { links = update p v q.links }

unfoldable pub empty_queue : (ℕ → ℕ) → (ℕ → ℤ) → TaskQueue
empty_queue links run_at = record { links = links; run_at = run_at; head = 0; tail = 0 }

-- TaskQueue::next
unfoldable pub next : TaskQueue → TaskQueue × ℕ
next q =
    if nonzero q.head
    then (let rest = q.links q.head in
        (link q.head 0 (record q { head = rest; tail = if rest == 0 then 0 else q.tail }), q.head))
    else (q, 0)

unfoldable pub peek : TaskQueue → ℕ
peek q = q.head

-- The search for the insertion point: `previous` and `next` where it stops.
pub data Gap : Type 0 where
  gap : ℕ → ℕ → Gap
  no_fuel : Gap

unfoldable pub find_gap : ℕ → ℕ → ℕ → ℕ → TaskQueue → Gap
find_gap zero task previous next q = no_fuel
find_gap (suc fuel) task previous next q =
    let further = find_gap fuel task next (q.links next) q in
    if nonzero next && leq (q.run_at next) (q.run_at task) then further else gap previous next

-- What `queue` does at the insertion point.
unfoldable pub insert_at : ℕ → Gap → TaskQueue → Outcome
insert_at task no_fuel q = looping
insert_at task (gap previous next) q =
    if previous == 0
    then done (record (link task q.head q) { head = task })
    else if nonzero next
    then done (link task next (link previous task q))
    else done (record (link previous task q) { tail = task })

unfoldable pub queue : ℕ → ℕ → TaskQueue → Outcome
queue fuel task q =
    if nonzero (q.links task) || q.tail == task
    then fatal
    else if nonzero q.tail
    then (if leq (q.run_at q.tail) (q.run_at task)
        then done (record (link q.tail task q) { tail = task })
        else insert_at task (find_gap fuel task 0 q.head q) q)
    else done (record q { head = task; tail = task })

unfoldable pub queue_at_front : ℕ → TaskQueue → TaskQueue
queue_at_front task q =
    if nonzero q.tail
    then record (link task q.head q) { head = task }
    else record q { head = task; tail = task }

-- `while (previous->mNext != task) previous = previous->mNext;` and the unlinking behind it. The
-- removed task keeps its mNext.
unfoldable pub unlink : ℕ → ℕ → ℕ → TaskQueue → Outcome
unlink zero task previous q = looping
unlink (suc fuel) task previous q =
    let further = unlink fuel task (q.links previous) q in
    if previous == 0
    then segfault
    else if q.links previous == task
    then done (record (link previous (q.links task) q) {
      tail = if q.tail == task then previous else q.tail;
    })
    else further

unfoldable pub remove : ℕ → ℕ → TaskQueue → Outcome
remove fuel task q =
    if q.links task == 0 && not (q.tail == task)
    then fatal
    else if peek q == task
    then done (next q).0
    else unlink fuel task q.head q
