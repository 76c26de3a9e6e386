-- ===== src/RenderThread/TaskQueue/Remove.antt =====
-- TaskQueue::remove of libs/hwui/renderthread/RenderThread.cpp.
use f2ut_platform_frameworks.Prelude.{
  List, [], arith, if◌then◌else◌, length, nonzero, not, refl, suc, true, zero, ℕ, ◌&&◌, ◌++◌, ◌<◌,
  ◌==◌, ◌∙◌, ◌∷◌, ◌≡◌, ◌≢◌, false, ap, sym,
}
use mathlib.Core.List.{append-nil}
use f2ut_platform_frameworks.RenderThread.TaskQueue.{
  TaskQueue, done, fatal, link, queue, remove, peek, update, unlink,
}
use f2ut_platform_frameworks.RenderThread.TaskQueue.Links.{
  Segment, Segment-head, Segment-update, head_or, update_other,
}
use f2ut_platform_frameworks.RenderThread.TaskQueue.Lists.{Absent, Distinct, last_or}
use f2ut_platform_frameworks.RenderThread.TaskQueue.Queue.{Holds, Returns, Returns-map, Absent-last}
use f2ut_platform_frameworks.RenderThread.TaskQueue.Front.{
  next-Holds, Absent-append_right, Absent-append_left, Distinct-middle,
}

-- The links without `t`, which stands behind `us`.
Segment-cut :
    (f : ℕ → ℕ) (t p : ℕ) (us vs : List ℕ)
    → Distinct (p ∷ (us ++ (t ∷ vs)))
    → Segment f (f p) (us ++ (t ∷ vs))
    → Segment (update (last_or p us) (f t) f) (update (last_or p us) (f t) f p) (us ++ vs)
Segment-cut f t p [] vs d s =
    let at_p : update p (f t) f p ≡ f t = ground arith in
    rw at_p (Segment-update p (f t) f (f t) vs d.0.1 s.2)
Segment-cut f t p (a ∷ us) vs d s =
    let apart = Absent-last p a us (Absent-append_left p (a ∷ us) (t ∷ vs) d.0) in
    let at_p = update_other (last_or a us) (f t) p f apart in
    (at_p ∙ s.0, s.1, Segment-cut f t a us vs d.1 s.2)

-- The scan stops at the task in front of `t`.
unlink_stops :
    (fuel t p : ℕ) (us vs : List ℕ) (q : TaskQueue)
    → length us < fuel
    → p ≢ 0
    → Distinct (p ∷ (us ++ (t ∷ vs)))
    → Segment q.links (q.links p) (us ++ (t ∷ vs))
    → unlink fuel t p q
      ≡ done (record (link (last_or p us) (q.links t) q) {
        tail = if q.tail == t then last_or p us else q.tail;
      })
unfolding unlink
unlink_stops zero t p us vs q enough nz d s = absurd (omega arith)
unlink_stops (suc fuel) t p [] vs q enough nz d s =
    let real : (p == 0) ≡ false = ground (arith, nz) in
    let hit : (q.links p == t) ≡ true = ground (arith, s.0) in rw (real, hit) refl
unlink_stops (suc fuel) t p (a ∷ us) vs q enough nz d s =
    let real : (p == 0) ≡ false = ground (arith, nz) in
    let apart = (Absent-append_right a us (t ∷ vs) d.1.0).0 in
    let miss : (q.links p == t) ≡ false = ground (arith, s.0, apart) in
    let further =
      ap (λ h. unlink fuel t h q) s.0 ∙ unlink_stops fuel t a us vs q (omega arith) s.1 d.1 s.2 in
    rw (real, miss) further

last_or-append :
    (p : ℕ) (us : List ℕ) (v : ℕ) (vs : List ℕ) → last_or p (us ++ (v ∷ vs)) ≡ last_or v vs
last_or-append p [] v vs = refl
last_or-append p (u ∷ us) v vs = last_or-append u us v vs

Distinct-behind : (t : ℕ) (us vs : List ℕ) → Distinct (us ++ (t ∷ vs)) → Absent t vs
Distinct-behind t [] vs d = d.0
Distinct-behind t (u ∷ us) vs d = Distinct-behind t us vs d.1

last_or-middle :
    (p t : ℕ) (us : List ℕ) (v : ℕ) (vs : List ℕ)
    → last_or p (us ++ (t ∷ v ∷ vs)) ≡ last_or p (us ++ (v ∷ vs))
last_or-middle p t [] v vs = refl
last_or-middle p t (u ∷ us) v vs = last_or-middle u t us v vs

last_or-end : (p t : ℕ) (us : List ℕ) → last_or p (us ++ (t ∷ [])) ≡ t
last_or-end p t [] = refl
last_or-end p t (u ∷ us) = last_or-end u t us

-- The tail behind the removal of `t` from behind `a` and `us`.
cut_tail :
    (q : TaskQueue) (t a : ℕ) (us vs : List ℕ)
    → Holds q ((a ∷ us) ++ (t ∷ vs))
    → (if q.tail == t then last_or a us else q.tail) ≡ last_or a (us ++ vs)
cut_tail q t a us [] holds =
    let ends = holds.tail ∙ last_or-end a t us in
    let is_tail : (q.tail == t) ≡ true = ground arith in
    rw is_tail (sym (ap (last_or a) (append-nil us)))
cut_tail q t a us (v ∷ vs) holds =
    let ends = holds.tail ∙ last_or-middle a t us v vs in
    let apart = Absent-last t v vs (Distinct-behind t us (v ∷ vs) holds.distinct.1) in
    let reaches = last_or-append a us v vs in
    let no_tail : (q.tail == t) ≡ false = ground arith in rw no_tail ends

Absent-both : (t : ℕ) (us vs : List ℕ) → Absent t us → Absent t vs → Absent t (us ++ vs)
Absent-both t [] vs h k = k
Absent-both t (u ∷ us) vs h k = (h.0, Absent-both t us vs h.1 k)

Distinct-front : (t : ℕ) (us vs : List ℕ) → Distinct (us ++ (t ∷ vs)) → Absent t us
Distinct-front t [] vs d = tt
Distinct-front t (u ∷ us) vs d =
    let apart = (Absent-append_right u us (t ∷ vs) d.0).0 in
    ((λ e. apart (sym e)), Distinct-front t us vs d.1)

Segment-behind :
    (f : ℕ → ℕ) (t p : ℕ) (us vs : List ℕ) → Segment f p (us ++ (t ∷ vs)) → Segment f (f t) vs
Segment-behind f t p [] vs s = s.2
Segment-behind f t p (u ∷ us) vs s = Segment-behind f t (f u) us vs s.2

-- A task of the queue has a successor, or is the last one.
guard_passes :
    (t : ℕ) (q : TaskQueue) (us vs : List ℕ)
    → Holds q (us ++ (t ∷ vs))
    → (q.links t == 0 && not (q.tail == t)) ≡ false
guard_passes t q us [] holds =
    let ends = holds.tail ∙ last_or-end 0 t us in
    let is_tail : (q.tail == t) ≡ true = ground arith in ground arith
guard_passes t q us (v ∷ vs) holds =
    let follows = Segment-behind q.links t q.head us (v ∷ vs) holds.segment in
    ground (arith, follows.0, follows.1)

-- Removing a task of the queue, with fuel for the tasks in front of it: the call returns, the
-- others stay, in their order, and keep their due times. A task that was not the first keeps its
-- link to the task that stood behind it.
pub remove-Holds :
    (fuel t : ℕ) (q : TaskQueue) (us vs : List ℕ)
    → Holds q (us ++ (t ∷ vs))
    → length us < fuel
    → Returns
        (remove fuel t q)
        (λ r. Holds r (us ++ vs) × (us ≢ [] → r.links t ≡ head_or 0 vs) × (r.run_at ≡ q.run_at))
unfolding remove peek
remove-Holds fuel t q [] vs holds enough =
    let first = holds.segment.0 in
    let at_head : (q.head == t) ≡ true = ground arith in
    let popped = next-Holds q t vs holds in
    rw (guard_passes t q [] vs holds, at_head) (popped.1, (λ h. absurd (h refl)), popped.3)
remove-Holds fuel t q (u ∷ us) vs holds enough =
    let apart = (Absent-append_right u us (t ∷ vs) holds.distinct.0).0 in
    let not_head : (q.head == t) ≡ false = ground (arith, holds.segment.0) in
    let stops =
      ap (λ h. unlink fuel t h q) holds.segment.0
      ∙ unlink_stops fuel t u us vs q (omega arith) holds.segment.1 holds.distinct
          holds.segment.2 in
    let alone = Absent-last t u us (Distinct-front t (u ∷ us) vs holds.distinct) in
    let kept = update_other (last_or u us) (q.links t) t q.links alone in
    let behind = Segment-behind q.links t q.head (u ∷ us) vs holds.segment in
    rw (guard_passes t q (u ∷ us) vs holds, not_head, stops)
      (
        record {
          segment = (
            holds.segment.0,
            holds.segment.1,
            Segment-cut q.links t u us vs holds.distinct holds.segment.2,
          );
          tail = cut_tail q t u us vs holds;
          distinct = Distinct-middle t (u ∷ us) vs holds.distinct;
        },
        (λ h. kept ∙ Segment-head q.links (q.links t) vs behind),
        refl,
      )

-- Queueing again a task that was removed from between two others is fatal, although it is in no
-- queue.
pub queue-remove_fatal :
    (fuel fuel' t : ℕ) (q : TaskQueue) (u v : ℕ) (us vs : List ℕ)
    → Holds q ((u ∷ us) ++ (t ∷ v ∷ vs))
    → length (u ∷ us) < fuel
    → Returns (remove fuel t q) (λ r.
      Holds r ((u ∷ us) ++ (v ∷ vs)) × Absent t ((u ∷ us) ++ (v ∷ vs)) × (queue fuel' t r ≡ fatal))
unfolding queue
queue-remove_fatal fuel fuel' t q u v us vs holds enough =
    let behind = Segment-behind q.links t q.head (u ∷ us) (v ∷ vs) holds.segment in
    let absent =
      Absent-both t (u ∷ us) (v ∷ vs) (Distinct-front t (u ∷ us) (v ∷ vs) holds.distinct)
        (Distinct-behind t (u ∷ us) (v ∷ vs) holds.distinct) in
    Returns-map (remove fuel t q) _ _
      (λ r p.
        let stale : nonzero (r.links t) ≡ true = ground (arith, p.1 (λ e. cc), behind.1) in
        (p.0, absent, rw stale refl))
      (remove-Holds fuel t q (u ∷ us) (v ∷ vs) holds enough)
