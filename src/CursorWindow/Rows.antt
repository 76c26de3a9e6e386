-- ===== src/CursorWindow/Rows.antt =====
-- allocRow and freeLastRow of libs/androidfw/CursorWindow.cpp: what they do to the rows.
use f2ut_platform_frameworks.Prelude.{
  Option, ap, arith, false, inl, inr, refl, some, subst, suc, sym, true, ℕ, ◌*◌, ◌+◌, ◌-◌, ◌/◌, ◌<◌,
  ◌==◌, ◌^◌, ◌∙◌, ◌≡◌, ◌≢◌, ◌≤◌, ◌⊎◌,
}
use f2ut_platform_frameworks.CursorWindow.{
  CursorWindow, Status, alloc, alloc_directory, alloc_row, alloc_row_slot, no_memory, ok,
}
use f2ut_platform_frameworks.CursorWindow.Layout.{Layout, Plan}
use f2ut_platform_frameworks.CursorWindow.Fields.{cell}
use f2ut_platform_frameworks.CursorWindow.Chunks.{alloc-Allocated, chunk_below}
use f2ut_platform_frameworks.CursorWindow.Growth.{Grown, Grown-cell, Grown-trans}
use f2ut_platform_frameworks.CursorWindow.Directory.{
  plan_row, slot_of, with_row, with_row-Grown, with_row-cell,
}
use f2ut_platform_frameworks.CursorWindow.Slots.{
  TakenSlot, alloc_row_slot-TakenSlot, full, same_window, taken,
}

-- A row was added, with NULL in every field, or there was no memory for it.
abbrev pub RowAdded : ℕ → ℕ → CursorWindow × Status → Type 0
RowAdded rows columns (w', status) =
    ((status ≡ ok)
      × (w'.num_rows ≡ rows + 1)
      × ((c : ℕ) → c < columns → ◌≡◌ {A = Option (ℕ × ℕ)} (cell w' rows c) (some (0, 0))))
    ⊎ ((status ≡ no_memory) × (w'.num_rows ≡ rows))

-- The outcome for a window that the caller had.
abbrev pub Outcome : CursorWindow → Plan → CursorWindow × Status → Type 0
Outcome w g result = (g' : Plan) × Grown w g result.0 g' × RowAdded w.num_rows w.num_columns result

same_rows : (w : CursorWindow) → record w { num_rows = w.num_rows + 1 - 1 } ≡ w
same_rows w =
    let back : w.num_rows + 1 - 1 ≡ w.num_rows = omega arith in
    ap (λ n. record w { num_rows = n }) back

-- The window in which the row is counted already.
abbrev counted : CursorWindow → CursorWindow
counted w = record w { num_rows = w.num_rows + 1 }

directory_full :
    (w : CursorWindow) (slot : ℕ)
    → slot ≢ 0
    → alloc (w.num_columns * 12) true (counted w) ≡ (counted w, 0)
    → alloc_directory (counted w, slot) ≡ (w, no_memory)
unfolding alloc_directory
directory_full w slot real no_room =
    let taken_slot : (slot == 0) ≡ false = ground arith in simp (taken_slot, no_room, same_rows w)

directory_given :
    (w : CursorWindow) (g : Plan) (dir : ℕ)
    → slot_of g w.num_rows ≢ 0
    → dir ≢ 0
    → alloc (w.num_columns * 12) true (counted w)
      ≡ (record w { num_rows = w.num_rows + 1; free_offset = dir + w.num_columns * 12 }, dir)
    → alloc_directory (counted w, slot_of g w.num_rows) ≡ (with_row w g dir, ok)
unfolding alloc_directory
directory_given w g dir real real_dir given =
    let taken_slot : (slot_of g w.num_rows == 0) ≡ false = ground (arith, real) in
    let taken_dir : (dir == 0) ≡ false = ground arith in simp (taken_slot, given, taken_dir)

-- The directory of a slot that was taken.
directory_added :
    (w : CursorWindow) (g : Plan)
    → Layout w g
    → suc w.num_rows ≤ 100 * g.used
    → w.size + w.num_columns * 12 + 512 < 2 ^ 32
    → Outcome w g (alloc_directory (counted w, slot_of g w.num_rows))
directory_added w g l hole small =
    let chunk_real = l.real (w.num_rows / 100) (omega (arith, hole)) in
    let real : slot_of g w.num_rows ≢ 0 = λ e. chunk_real (omega (arith, e)) in
    let low = chunk_below w g l 0 403 l.some_chunk (omega arith) in
    elim (alloc-Allocated (w.num_columns * 12) true (counted w) l.fits small) [
      | inl no_room ↦
          subst (Outcome w g) (sym (directory_full w (slot_of g w.num_rows) real no_room))
            (g, same_window w g l, inr (refl, refl))
      | inr (dir, given, behind, fit) ↦
          subst (Outcome w g) (sym (directory_given w g dir real (λ e. omega arith) given)) (
            plan_row w g dir,
            with_row-Grown w g l dir hole behind fit,
            inl (refl, refl, with_row-cell w g l dir hole behind fit),
          )
    ]

row_added :
    (w : CursorWindow) (g : Plan) (result : CursorWindow × ℕ)
    → Layout w g
    → w.size + w.num_columns * 12 + 512 < 2 ^ 32
    → TakenSlot w g result
    → Outcome w g (alloc_directory result)
unfolding alloc_directory
row_added w g result l small (full w1 g1 grown rows e) =
    subst (λ x. Outcome w g (alloc_directory x)) (sym e) (g1, grown, inr (refl, rows))
row_added w g result l small (taken w1 g1 slot grown rows size hole at e) =
    let start = e ∙ ap (λ s. (counted w1, s)) at in
    let fits : w1.size + w1.num_columns * 12 + 512 < 2 ^ 32 =
      omega (arith, small, size, grown.columns) in
    let (g', more, added) = directory_added w1 g1 grown.layout hole fits in
    let added' =
      subst (λ n. RowAdded n w1.num_columns (alloc_directory (counted w1, slot_of g1 w1.num_rows)))
        rows added in
    let added'' =
      subst (λ n. RowAdded w.num_rows n (alloc_directory (counted w1, slot_of g1 w1.num_rows)))
        grown.columns added' in
    subst (λ x. Outcome w g (alloc_directory x)) (sym start)
      (
        g',
        Grown-trans w w1 (alloc_directory (counted w1, slot_of g1 w1.num_rows)).0 g g1 g' grown
            more,
        added'',
      )

alloc_row_lem :
    (w : CursorWindow) (result : CursorWindow × ℕ)
    → w.read_only ≡ false
    → alloc_row_slot w ≡ some result
    → alloc_row w ≡ alloc_directory result
unfolding alloc_row
alloc_row_lem w result writable found = simp (writable, found)

pub alloc_row-Outcome :
    (w : CursorWindow) (g : Plan)
    → Layout w g
    → w.read_only ≡ false
    → w.size + w.num_columns * 12 + 512 < 2 ^ 32
    → Outcome w g (alloc_row w)
alloc_row-Outcome w g l writable small =
    let (result, found, slot) = alloc_row_slot-TakenSlot w g l in
    subst (Outcome w g) (sym (alloc_row_lem w result writable found))
      (row_added w g result l small slot)

-- In a window whose memory is laid out by a plan, that is not read-only, and whose size with the
-- size of one more directory is below 2 ^ 32 - 512, allocRow keeps the memory laid out by a plan,
-- and every field of the rows there were reads as before; it either succeeds, and then there is
-- one more row, whose fields are all NULL, or answers NO_MEMORY with as many rows as before.
pub alloc_row-cells :
    (w : CursorWindow) (g : Plan)
    → Layout w g
    → w.read_only ≡ false
    → w.size + w.num_columns * 12 + 512 < 2 ^ 32
    → ((g' : Plan) × Layout (alloc_row w).0 g')
      × ((r c : ℕ) → r < w.num_rows → cell (alloc_row w).0 r c ≡ cell w r c)
      × RowAdded w.num_rows w.num_columns (alloc_row w)
alloc_row-cells w g l writable small =
    let (g', grown, added) = alloc_row-Outcome w g l writable small in
    ((g', grown.layout), (λ r c h. Grown-cell w (alloc_row w).0 g g' r c l grown h), added)
