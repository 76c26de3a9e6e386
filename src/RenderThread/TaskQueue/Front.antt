-- ===== src/RenderThread/TaskQueue/Front.antt =====
-- TaskQueue::next and queueAtFront of libs/hwui/renderthread/RenderThread.cpp.
use f2ut_platform_frameworks.Prelude.{
  List, [], arith, nonzero, refl, subst, true, ℕ, ◌++◌, ◌==◌, ◌∙◌, ◌∷◌, ◌≡◌, ◌≢◌, false, ap, sym,
}
use f2ut_platform_frameworks.RenderThread.TaskQueue.{TaskQueue, next, queue_at_front, update}
use f2ut_platform_frameworks.RenderThread.TaskQueue.Links.{Segment, Segment-update}
use f2ut_platform_frameworks.RenderThread.TaskQueue.Lists.{Absent, Distinct, last_or}
use f2ut_platform_frameworks.RenderThread.TaskQueue.Queue.{Holds, Segment-last_ne}

last_or_any : (p : ℕ) (x : ℕ) (xs : List ℕ) → last_or p (x ∷ xs) ≡ last_or x xs
last_or_any p x xs = refl

-- `next` takes the first task and clears its link.
pub next-Holds :
    (q : TaskQueue) (x : ℕ) (xs : List ℕ)
    → Holds q (x ∷ xs)
    → ((next q).1 ≡ x)
      × Holds (next q).0 xs
      × ((next q).0.links x ≡ 0)
      × ((next q).0.run_at ≡ q.run_at)
unfolding next
next-Holds q x [] holds =
    let some_task : nonzero q.head ≡ true = ground (arith, holds.segment.0, holds.segment.1) in
    let last : q.links q.head ≡ 0 = ap q.links holds.segment.0 ∙ holds.segment.2 in
    let cleared : update q.head 0 q.links x ≡ 0 = ground (arith, holds.segment.0) in
    let emptied : (q.links q.head == 0) ≡ true = ground arith in
    rw (some_task, emptied)
      (holds.segment.0, record { segment = last; tail = refl; distinct = tt }, cleared, refl)
next-Holds q x (y ∷ ys) holds =
    let some_task : nonzero q.head ≡ true = ground (arith, holds.segment.0, holds.segment.1) in
    let follows : q.links q.head ≡ y = ap q.links holds.segment.0 ∙ holds.segment.2.0 in
    let more : (q.links q.head == 0) ≡ false = ground (arith, holds.segment.2.1) in
    let cleared : update q.head 0 q.links x ≡ 0 = ground (arith, holds.segment.0) in
    let kept = Segment-update x 0 q.links (q.links x) (y ∷ ys) holds.distinct.0 holds.segment.2 in
    rw (some_task, more)
      (
        holds.segment.0,
        record {
          segment =
              subst (λ h. Segment (update h 0 q.links) (q.links h) (y ∷ ys)) (sym holds.segment.0)
                kept;
          tail = holds.tail;
          distinct = holds.distinct.1;
        },
        cleared,
        refl,
      )

-- With no task, `next` is NULL.
pub next_empty : (q : TaskQueue) → Holds q [] → next q ≡ (q, 0)
unfolding next
next_empty q holds =
    let no_task : nonzero q.head ≡ false = ground (arith, holds.segment) in rw no_task refl

pub queue_at_front-Holds :
    (t : ℕ) (q : TaskQueue) (xs : List ℕ)
    → Holds q xs
    → t ≢ 0
    → q.links t ≡ 0
    → Absent t xs
    → Holds (queue_at_front t q) (t ∷ xs)
unfolding queue_at_front
queue_at_front-Holds t q [] holds real free out =
    let no_tail : nonzero q.tail ≡ false = ground (arith, holds.tail) in
    rw no_tail (record { segment = (refl, real, free); tail = refl; distinct = (tt, tt) })
queue_at_front-Holds t q (x ∷ xs) holds real free out =
    let end = Segment-last_ne q.links q.head x xs holds.segment in
    let some_tail : nonzero q.tail ≡ true = ground (arith, holds.tail, end) in
    let at_t : update t q.head q.links t ≡ q.head = ground arith in
    rw some_tail (record {
      segment =
          (refl, real, rw at_t (Segment-update t q.head q.links q.head (x ∷ xs) out holds.segment));
      tail = holds.tail;
      distinct = (out, holds.distinct);
    })

pub Absent-append_right : (a : ℕ) (xs ys : List ℕ) → Absent a (xs ++ ys) → Absent a ys
Absent-append_right a [] ys h = h
Absent-append_right a (x ∷ xs) ys h = Absent-append_right a xs ys h.1

Absent-middle : (a t : ℕ) (xs ys : List ℕ) → Absent a (xs ++ (t ∷ ys)) → Absent a (xs ++ ys)
Absent-middle a t [] ys h = h.1
Absent-middle a t (x ∷ xs) ys h = (h.0, Absent-middle a t xs ys h.1)

pub Absent-append_left : (a : ℕ) (xs ys : List ℕ) → Absent a (xs ++ ys) → Absent a xs
Absent-append_left a [] ys h = tt
Absent-append_left a (x ∷ xs) ys h = (h.0, Absent-append_left a xs ys h.1)

pub Distinct-middle : (t : ℕ) (xs ys : List ℕ) → Distinct (xs ++ (t ∷ ys)) → Distinct (xs ++ ys)
Distinct-middle t [] ys d = d.1
Distinct-middle t (x ∷ xs) ys d = (Absent-middle x t xs ys d.0, Distinct-middle t xs ys d.1)
