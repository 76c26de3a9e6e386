-- ===== src/RenderThread/TaskQueue/Queue.antt =====
-- TaskQueue of libs/hwui/renderthread/RenderThread.cpp keeps its links in order, and its operations
-- are those of a list.
use f2ut_platform_frameworks.Prelude.{
  Bool-cases, List, [], arith, inl, inr, length, nonzero, refl, subst, suc, true, ℕ, ◌&&◌, ◌-◌,
  ◌++◌, ◌<◌, ◌==◌, ◌∙◌, ◌∷◌, ◌≡◌, ◌≢◌, false, ap, sym, ◌||◌,
}
use f2ut_platform_frameworks.Prelude.Int.{ℤ}
use f2ut_platform_frameworks.RenderThread.TaskQueue.{
  Outcome, TaskQueue, done, find_gap, insert_at, leq, link, queue, update,
}
use f2ut_platform_frameworks.RenderThread.TaskQueue.Links.{
  Segment, Segment-update, find_gap-Splices, update_other,
}
use f2ut_platform_frameworks.RenderThread.TaskQueue.Lists.{
  Absent, Distinct, IsSorted, insert, insert-IsSorted, insert_last, last_or,
}

-- The queue holds these tasks, in this order.
pub record Holds (q : TaskQueue) (xs : List ℕ) : Type 0 where
  pub segment : Segment q.links q.head xs
  pub tail : q.tail ≡ last_or 0 xs
  pub distinct : Distinct xs

-- The result of a call that returns.
abbrev pub Returns : Outcome → (TaskQueue → Type 0) → Type 0
Returns (done q) P = P q
Returns _ P = ⊥

pub Returns-map :
    (o : Outcome) (P Q : TaskQueue → Type 0)
    → ((q : TaskQueue) → P q → Q q)
    → Returns o P
    → Returns o Q
Returns-map (done q) P Q f p = f q p
Returns-map _ P Q f p = absurd p

Distinct-insert :
    (run_at : ℕ → ℤ) (t : ℕ) (xs : List ℕ)
    → Absent t xs
    → Distinct xs
    → Distinct (insert run_at t xs)
Distinct-insert run_at t [] out d = (tt, tt)
Distinct-insert run_at t (x ∷ xs) (ne, out) (h, d) = elim (Bool-cases (leq (run_at x) (run_at t))) [
  | inl before ↦ rw before (absent_insert xs h, Distinct-insert run_at t xs out d)
  | inr after ↦ rw after ((ne, out), (h, d))
]
  where
    absent_insert : (ys : List ℕ) → Absent x ys → Absent x (insert run_at t ys)
    absent_insert [] k = ((λ e. ne (sym e)), tt)
    absent_insert (y ∷ ys) k = elim (Bool-cases (leq (run_at y) (run_at t))) [
      | inl before ↦ rw before (k.0, absent_insert ys k.1)
      | inr after ↦ rw after ((λ e. ne (sym e)), k)
    ]

pub Segment-last_ne : (f : ℕ → ℕ) (p x : ℕ) (xs : List ℕ) → Segment f p (x ∷ xs) → last_or x xs ≢ 0
Segment-last_ne f p x [] s = s.1
Segment-last_ne f p x (y ∷ ys) s = Segment-last_ne f (f x) y ys s.2

pub Absent-last : (t x : ℕ) (xs : List ℕ) → Absent t (x ∷ xs) → t ≢ last_or x xs
Absent-last t x [] h = h.0
Absent-last t x (y ∷ ys) h = Absent-last t y ys h.1

-- A task put behind the last one.
Segment-snoc :
    (f : ℕ → ℕ) (t p x : ℕ) (xs : List ℕ)
    → t ≢ 0
    → f t ≡ 0
    → Absent t (x ∷ xs)
    → Distinct (x ∷ xs)
    → Segment f p (x ∷ xs)
    → Segment (update (last_or x xs) t f) p ((x ∷ xs) ++ (t ∷ []))
Segment-snoc f t p x [] real free out distinct (e, nz, s) =
    let at_x : update x t f x ≡ t = ground arith in
    let at_t : update x t f t ≡ 0 = ground (arith, out.0, free) in
    (e, nz, rw at_x (refl, real, at_t))
Segment-snoc f t p x (y ∷ ys) real free out distinct (e, nz, s) =
    let at_x = update_other (last_or y ys) t x f (Absent-last x y ys distinct.0) in
    (e, nz, rw at_x (Segment-snoc f t (f x) y ys real free out.1 distinct.1 s))

last_snoc : (p t : ℕ) (xs : List ℕ) → last_or p (xs ++ (t ∷ [])) ≡ t
last_snoc p t [] = refl
last_snoc p t (x ∷ xs) = last_snoc x t xs

-- What `queue` is to give.
abbrev Queued : ℕ → List ℕ → TaskQueue → TaskQueue → Type 0
Queued t xs q r =
    Holds r (insert q.run_at t xs)
    × IsSorted q.run_at (insert q.run_at t xs)
    × (r.run_at ≡ q.run_at)

module _ (t x : ℕ) (xs : List ℕ) (q : TaskQueue) (holds : Holds q (x ∷ xs))
    (sorted : IsSorted q.run_at (x ∷ xs)) (real : t ≢ 0) (free : q.links t ≡ 0)
    (out : Absent t (x ∷ xs)) where
  goes_last :
      leq (q.run_at (last_or x xs)) (q.run_at t) ≡ true
      → Queued t (x ∷ xs) q (record (link (last_or x xs) t q) { tail = t })
  goes_last late =
      let ends = insert_last q.run_at t x xs sorted late in
      let appended =
        Segment-snoc q.links t q.head x xs real free out holds.distinct holds.segment in
      (
        record {
          segment = subst (Segment (update (last_or x xs) t q.links) q.head) (sym ends) appended;
          tail = sym (ap (last_or 0) ends ∙ last_snoc x t xs);
          distinct = Distinct-insert q.run_at t (x ∷ xs) out holds.distinct;
        },
        insert-IsSorted q.run_at t (x ∷ xs) sorted,
        refl,
      )

  goes_first :
      (fuel : ℕ)
      → leq (q.run_at x) (q.run_at t) ≡ false
      → Returns (insert_at t (find_gap (suc fuel) t 0 q.head q) q) (Queued t (x ∷ xs) q)
  unfolding find_gap insert_at
  goes_first fuel later =
      let at_head : leq (q.run_at q.head) (q.run_at t) ≡ false =
        ap (λ h. leq (q.run_at h) (q.run_at t)) holds.segment.0 ∙ later in
      let stop : (nonzero q.head && leq (q.run_at q.head) (q.run_at t)) ≡ false = ground arith in
      let at_t : update t q.head q.links t ≡ q.head = ground arith in
      let rest = Segment-update t q.head q.links q.head (x ∷ xs) out holds.segment in
      let order = insert-IsSorted q.run_at t (x ∷ xs) sorted in
      let apart = Distinct-insert q.run_at t (x ∷ xs) out holds.distinct in
      rw (stop, later)
        (
          record {
            segment = (refl, real, rw at_t rest);
            tail = holds.tail;
            distinct = rw later at apart;
          },
          rw later at order,
          refl,
        )

  goes_inside :
      (fuel : ℕ)
      → length (x ∷ xs) < suc fuel
      → leq (q.run_at x) (q.run_at t) ≡ true
      → leq (q.run_at (last_or x xs)) (q.run_at t) ≡ false
      → Returns (insert_at t (find_gap (suc fuel) t 0 q.head q) q) (Queued t (x ∷ xs) q)
  unfolding find_gap insert_at
  goes_inside fuel enough before last =
      let at_head : leq (q.run_at q.head) (q.run_at t) ≡ true =
        ap (λ h. leq (q.run_at h) (q.run_at t)) holds.segment.0 ∙ before in
      let step : (nonzero q.head && leq (q.run_at q.head) (q.run_at t)) ≡ true =
        ground (arith, holds.segment.0, holds.segment.1) in
      let nz = holds.segment.1 in
      let found =
        find_gap-Splices t q real fuel x xs (omega arith) nz holds.distinct.0 out holds.distinct.1
          before last holds.segment.2 in
      let at_x = ap (λ h. find_gap fuel t h (q.links h) q) holds.segment.0 ∙ found.stops in
      let p_nz : (found.previous == 0) ≡ false = ground (arith, found.previous-ne) in
      let n_nz : nonzero found.next ≡ true = ground (arith, found.next-ne) in
      let order = insert-IsSorted q.run_at t (x ∷ xs) sorted in
      let apart = Distinct-insert q.run_at t (x ∷ xs) out holds.distinct in
      rw (step, at_x, p_nz, n_nz, before)
        (
          record {
            segment = (holds.segment.0, nz, found.segment);
            tail = holds.tail ∙ sym found.last;
            distinct = rw before at apart;
          },
          rw before at order,
          refl,
        )

-- Queueing a task that is not null, is not in the queue and is linked to no next task (which a
-- task that remove took from between two others still is), in a queue that is linked in order of
-- the due times, with more fuel than the queue has tasks: the call returns, the task is linked in
-- behind every task that is due no later, and the queue keeps its order and the due times.
pub queue-insert :
    (fuel t : ℕ) (q : TaskQueue) (xs : List ℕ)
    → Holds q xs
    → IsSorted q.run_at xs
    → t ≢ 0
    → q.links t ≡ 0
    → Absent t xs
    → length xs < fuel
    → Returns (queue fuel t q) (λ r.
      Holds r (insert q.run_at t xs)
      × IsSorted q.run_at (insert q.run_at t xs)
      × (r.run_at ≡ q.run_at))
unfolding queue
queue-insert fuel t q [] holds sorted real free out enough =
    let no_tail : q.tail ≡ 0 = holds.tail in
    let fresh : (nonzero (q.links t) || q.tail == t) ≡ false =
      ground (arith, real, free, no_tail) in
    let empty : nonzero q.tail ≡ false = ground (arith, no_tail) in
    rw (fresh, empty)
      (record { segment = (refl, real, free); tail = refl; distinct = (tt, tt) }, (tt, tt), refl)
queue-insert fuel t q (x ∷ xs) holds sorted real free out enough =
    let end = Segment-last_ne q.links q.head x xs holds.segment in
    let apart = Absent-last t x xs out in
    let fresh : (nonzero (q.links t) || q.tail == t) ≡ false =
      ground (arith, holds.tail, free, apart) in
    let some_tail : nonzero q.tail ≡ true = ground (arith, holds.tail, end) in
    elim (Bool-cases (leq (q.run_at (last_or x xs)) (q.run_at t))) [
      | inl late ↦
          let at_tail = ap (λ e. leq (q.run_at e) (q.run_at t)) holds.tail ∙ late in
          rw (fresh, some_tail, at_tail)
            (subst (λ e. Queued t (x ∷ xs) q (record (link e t q) { tail = t })) (sym holds.tail)
              (goes_last t x xs q holds sorted real free out late))
      | inr not_last ↦
          let at_tail = ap (λ e. leq (q.run_at e) (q.run_at t)) holds.tail ∙ not_last in
          rw (fresh, some_tail, at_tail)
            (let fuel' = fuel - 1 in
              let more : fuel ≡ suc (fuel - 1) = omega arith in
              rw more (elim (Bool-cases (leq (q.run_at x) (q.run_at t))) [
                | inl before ↦
                    goes_inside t x xs q holds sorted real free out fuel' (omega arith) before
                      not_last
                | inr later ↦ goes_first t x xs q holds sorted real free out fuel' later
              ]))
    ]
