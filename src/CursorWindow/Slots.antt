-- ===== src/CursorWindow/Slots.antt =====
-- The row slot that allocRowSlot of libs/androidfw/CursorWindow.cpp takes.
use f2ut_platform_frameworks.Prelude.{
  Bool-cases, ap, arith, false, inl, inr, ltb, refl, some, subst, suc, sym, true, ℕ, ◌%◌, ◌*◌, ◌+◌,
  ◌-◌, ◌/◌, ◌<◌, ◌==◌, ◌∙◌, ◌≡◌, ◌≤◌,
}
use f2ut_platform_frameworks.CursorWindow.{
  CursorWindow, alloc_row_slot, open_chunk, slot_in, take_slot, walk_chunks,
}
use f2ut_platform_frameworks.CursorWindow.Layout.{Layout, Plan, walk_chunks-chain}
use f2ut_platform_frameworks.CursorWindow.Chunks.{alloc-Allocated, chunk_below}
use f2ut_platform_frameworks.CursorWindow.Growth.{Grown}
use f2ut_platform_frameworks.CursorWindow.Cut.{cut, cut-Grown, plan_cut}
use f2ut_platform_frameworks.CursorWindow.Extend.{
  chunks_with_same, extend, extend-Grown, plan_extend,
}

-- What `slot_in` gives: no slot, in a window with the same rows, or the slot of one more row.
pub data TakenSlot (w : CursorWindow) (g : Plan) (result : CursorWindow × ℕ) : Type 0 where
  full :
      (w1 : CursorWindow) (g1 : Plan)
      → Grown w g w1 g1
      → w1.num_rows ≡ w.num_rows
      → result ≡ (w1, 0)
      → TakenSlot w g result
  taken :
      (w1 : CursorWindow) (g1 : Plan) (slot : ℕ)
      → Grown w g w1 g1
      → w1.num_rows ≡ w.num_rows
      → w1.size ≡ w.size
      → suc w1.num_rows ≤ 100 * g1.used
      → slot ≡ g1.chunk_at (w1.num_rows / 100) + 4 * (w1.num_rows % 100)
      → result ≡ (record w1 { num_rows = w1.num_rows + 1 }, slot)
      → TakenSlot w g result

module _ (w : CursorWindow) (g : Plan) (l : Layout w g) where
  pub same_window : Grown w g w g
  same_window = record {
    layout = l;
    columns = refl;
    same_size = refl;
    same_access = refl;
    more_rows = omega arith;
    dirs = λ r h. refl;
    kept = λ a r h o. refl;
    owners = λ a r h o. o;
  }

  -- A slot that is left in the chunk.
  slot_here :
      (q rem : ℕ)
      → q < g.used
      → w.num_rows ≡ 100 * q + rem
      → rem < 100
      → TakenSlot w g (slot_in (g.chunk_at q) rem w)
  unfolding slot_in take_slot
  slot_here q rem hq e h =
      let inner : (rem == 100) ≡ false = ground arith in
      let quotient : q ≡ w.num_rows / 100 = omega arith in
      let rest : rem ≡ w.num_rows % 100 = omega arith in
      taken w g (g.chunk_at q + 4 * rem) same_window refl refl (omega arith)
        (ap (λ x. g.chunk_at x + 4 * rem) quotient
          ∙ ap (λ x. g.chunk_at (w.num_rows / 100) + 4 * x) rest)
        (simp inner)

  -- The next chunk there is already.
  slot_next :
      (q : ℕ)
      → suc q < g.used
      → w.num_rows ≡ 100 * q + 100
      → TakenSlot w g (slot_in (g.chunk_at q) 100 w)
  unfolding slot_in take_slot open_chunk
  slot_next q hq e =
      let next = l.chain q hq in
      let real : (g.chunk_at (suc q) == 0) ≡ false = ground (arith, l.real (suc q) hq) in
      let index : suc q ≡ w.num_rows / 100 = omega arith in
      let rest : w.num_rows % 100 ≡ 0 = omega arith in
      taken (cut w g (suc q)) (plan_cut g (suc q)) (g.chunk_at (suc q) + 4 * 0)
        (cut-Grown w g l (suc q) hq (omega arith)) refl refl (omega arith)
        (ap (λ x. g.chunk_at x + 4 * 0) index
          ∙ ap (λ x. g.chunk_at (w.num_rows / 100) + 4 * x) (sym rest))
        (simp (next, real))

  -- A new chunk, if there is room for one.
  slot_new :
      (q : ℕ)
      → suc q ≡ g.used
      → w.num_rows ≡ 100 * q + 100
      → TakenSlot w g (slot_in (g.chunk_at q) 100 w)
  unfolding slot_in take_slot open_chunk
  slot_new q hq e =
      let next = l.last q hq in
      elim (alloc-Allocated 404 true w l.fits (omega (arith, l.small))) [
        | inl no_room ↦
            full (cut w g q) (plan_cut g q) (cut-Grown w g l q (omega arith) (omega arith)) refl
              (simp (next, no_room))
        | inr (off, given, behind, fit) ↦
            let low = chunk_below w g l 0 403 l.some_chunk (omega arith) in
            let real : (off == 0) ≡ false = ground arith in
            let index : g.used ≡ w.num_rows / 100 = omega arith in
            let rest : w.num_rows % 100 ≡ 0 = omega arith in
            taken (extend w g q off) (plan_extend g off) (off + 4 * 0)
              (extend-Grown w g l q off hq behind fit) refl refl (omega arith)
              (ap (λ x. off + 4 * x) (sym rest)
                ∙ ap (λ c. c + 4 * (w.num_rows % 100))
                    (sym (chunks_with_same g.used off (w.num_rows / 100) g.chunk_at (sym index))))
              (simp (next, given, real))
      ]

  -- `slot_in` takes a slot at whatever position the loop stops.
  slot_in-TakenSlot :
      (q rem : ℕ)
      → q < g.used
      → w.num_rows ≡ 100 * q + rem
      → rem < 101
      → TakenSlot w g (slot_in (g.chunk_at q) rem w)
  slot_in-TakenSlot q rem hq e h = elim (Bool-cases (ltb rem 100)) [
    | inl here ↦ slot_here q rem hq e (ground arith)
    | inr at_end ↦
        let all : rem ≡ 100 = ground arith in
        let e' : w.num_rows ≡ 100 * q + 100 = omega arith in
        subst (λ x. TakenSlot w g (slot_in (g.chunk_at q) x w)) (sym all)
          (elim (Bool-cases (ltb (suc q) g.used)) [
            | inl more ↦ slot_next q (ground arith) e'
            | inr none_left ↦ slot_new q (ground arith) e'
          ])
  ]

  -- The loop stops, at a position where a slot is taken.
  pub alloc_row_slot-TakenSlot :
      (result : CursorWindow × ℕ) × (alloc_row_slot w ≡ some result) × TakenSlot w g result
  unfolding alloc_row_slot
  alloc_row_slot-TakenSlot =
      let q = (w.num_rows - 1) / 100 in
      let rem = w.num_rows - 100 * q in
      let in_use : q < g.used = omega (arith, l.room, l.some_chunk) in
      let parts : w.num_rows ≡ 100 * q + rem = omega arith in
      let walk =
        walk_chunks-chain (suc w.num_rows) 101 w.num_rows 0 q rem g.used g.chunk_at w.mem l.chain
          (omega arith) parts (omega arith) (λ n. omega arith) (omega arith) in
      let from_first =
        ap (λ c. walk_chunks (suc w.num_rows) 101 w.num_rows c w.mem) (sym l.first) ∙ walk in
      let index : 0 + q ≡ q = omega arith in
      (
        slot_in (g.chunk_at q) rem w,
        rw (from_first, index) refl,
        slot_in-TakenSlot q rem in_use parts (omega arith),
      )
