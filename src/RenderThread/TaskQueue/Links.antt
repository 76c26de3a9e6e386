-- ===== src/RenderThread/TaskQueue/Links.antt =====
-- Linked segments of tasks, and the search for an insertion point in them
-- (TaskQueue::queue of libs/hwui/renderthread/RenderThread.cpp).
use f2ut_platform_frameworks.Prelude.{
  Bool-cases, List, [], arith, inl, inr, length, nonzero, refl, suc, true, zero, ℕ, ◌&&◌, ◌<◌, ◌∙◌,
  ◌∷◌, ◌≡◌, ◌≢◌, false, sym,
}
use f2ut_platform_frameworks.RenderThread.TaskQueue.{Gap, TaskQueue, find_gap, gap, leq, update}
use f2ut_platform_frameworks.RenderThread.TaskQueue.Lists.{Absent, Distinct, insert, last_or}

abbrev pub head_or : ℕ → List ℕ → ℕ
head_or p [] = p
head_or p (x ∷ xs) = x

-- From `p` on, the links lead through the list and end in NULL.
abbrev pub Segment : (ℕ → ℕ) → ℕ → List ℕ → Type 0
Segment f p [] = p ≡ 0
Segment f p (x ∷ xs) = (p ≡ x) × (x ≢ 0) × Segment f (f x) xs

pub Segment-head : (f : ℕ → ℕ) (p : ℕ) (xs : List ℕ) → Segment f p xs → p ≡ head_or 0 xs
Segment-head f p [] s = s
Segment-head f p (x ∷ xs) s = s.0

pub update_other : (p v a : ℕ) (f : ℕ → ℕ) → a ≢ p → update p v f a ≡ f a
update_other p v a f h = ground arith

update_self : (p v : ℕ) (f : ℕ → ℕ) → update p v f p ≡ v
update_self p v f = ground arith

-- A write to a task outside a segment leaves it.
pub Segment-update :
    (a v : ℕ) (f : ℕ → ℕ) (p : ℕ) (xs : List ℕ)
    → Absent a xs
    → Segment f p xs
    → Segment (update a v f) p xs
Segment-update a v f p [] h s = s
Segment-update a v f p (x ∷ xs) (ne, h) (e, nz, s) =
    (e, nz, rw (update_other a v x f (λ q. ne (sym q))) (Segment-update a v f (f x) xs h s))

-- The links behind an insertion between `previous` and `next`.
abbrev pub spliced : ℕ → ℕ → ℕ → (ℕ → ℕ) → ℕ → ℕ
spliced task previous next f = update task next (update previous task f)

-- The search stops inside the segment behind `p`, and the insertion there is the list's.
pub record Splices (task p : ℕ) (xs : List ℕ) (q : TaskQueue) (g : Gap) : Type 0 where
  pub previous : ℕ
  pub next : ℕ
  pub stops : g ≡ gap previous next
  pub previous-ne : previous ≢ 0
  pub next-ne : next ≢ 0
  pub segment :
      Segment
        (spliced task previous next q.links)
        (spliced task previous next q.links p)
        (insert q.run_at task xs)
  pub frame :
      (a : ℕ) → Absent a (p ∷ xs) → a ≢ task → spliced task previous next q.links a ≡ q.links a
  pub last : last_or p (insert q.run_at task xs) ≡ last_or p xs

module _ (task : ℕ) (q : TaskQueue) (real : task ≢ 0) where
  stop_here :
      (fuel p x : ℕ) (xs : List ℕ)
      → p ≢ 0
      → Absent p (x ∷ xs)
      → Absent task (p ∷ x ∷ xs)
      → Segment q.links x (x ∷ xs)
      → leq (q.run_at x) (q.run_at task) ≡ false
      → Splices task p (x ∷ xs) q (find_gap (suc fuel) task p x q)
  unfolding find_gap
  stop_here fuel p x xs nz out absent (e, x_nz, s) later =
      let found : (nonzero x && leq (q.run_at x) (q.run_at task)) ≡ false = ground arith in
      let at_p : spliced task p x q.links p ≡ task = ground arith in
      let at_task : spliced task p x q.links task ≡ x = ground arith in
      let at_x : spliced task p x q.links x ≡ q.links x = ground arith in
      record {
        previous = p;
        next = x;
        stops = rw found refl;
        previous-ne = nz;
        next-ne = x_nz;
        segment = rw later (
          at_p,
          real,
          rw at_task (
            refl,
            x_nz,
            rw at_x (
                Segment-update task x (update p task q.links) (q.links x) xs absent.1.1
                  (Segment-update p task q.links (q.links x) xs out.1 s)),
          ),
        );
        frame = λ a h ne. ground (arith, h.0);
        last = rw later refl;
      }

  go_on :
      (fuel p x : ℕ) (xs : List ℕ)
      → Absent p (x ∷ xs)
      → p ≢ task
      → q.links p ≡ x
      → x ≢ 0
      → leq (q.run_at x) (q.run_at task) ≡ true
      → Splices task x xs q (find_gap fuel task x (q.links x) q)
      → Splices task p (x ∷ xs) q (find_gap (suc fuel) task p x q)
  unfolding find_gap
  go_on fuel p x xs out ne e nz before r =
      let found : (nonzero x && leq (q.run_at x) (q.run_at task)) ≡ true = ground arith in
      let at_p = r.frame p out ne in
      record {
        previous = r.previous;
        next = r.next;
        stops = rw found r.stops;
        previous-ne = r.previous-ne;
        next-ne = r.next-ne;
        segment = rw before (at_p ∙ e, nz, r.segment);
        frame = λ a h t. r.frame a h.1 t;
        last = rw before r.last;
      }

  pub find_gap-Splices :
      (fuel p : ℕ) (xs : List ℕ)
      → length xs < fuel
      → p ≢ 0
      → Absent p xs
      → Absent task (p ∷ xs)
      → Distinct xs
      → leq (q.run_at p) (q.run_at task) ≡ true
      → leq (q.run_at (last_or p xs)) (q.run_at task) ≡ false
      → Segment q.links (q.links p) xs
      → Splices task p xs q (find_gap fuel task p (q.links p) q)
  find_gap-Splices zero p xs enough nz out absent distinct first last s = absurd (omega arith)
  find_gap-Splices (suc fuel) p [] enough nz out absent distinct first last s = cc
  find_gap-Splices (suc fuel) p (x ∷ xs) enough nz out absent distinct first last (e, x_nz, s) =
      elim (Bool-cases (leq (q.run_at x) (q.run_at task))) [
        | inl before ↦
            let rest =
              find_gap-Splices fuel x xs (omega arith) x_nz distinct.0 absent.1 distinct.1 before
                last s in
            rw e (go_on fuel p x xs out (λ h. absent.0 (sym h)) e x_nz before rest)
        | inr later ↦ rw e (stop_here fuel p x xs nz out absent (refl, x_nz, s) later)
      ]
