-- ===== src/CursorWindow/Directory.antt =====
-- The field directory that allocRow of libs/androidfw/CursorWindow.cpp gives a new row.
use f2ut_platform_frameworks.Prelude.{
  Bool-cases, Option, ap, arith, if◌then◌else◌, inl, inr, leb, ltb, refl, some, suc, sym, ℕ, ◌%◌,
  ◌&&◌, ◌*◌, ◌+◌, ◌/◌, ◌<◌, ◌==◌, ◌∙◌, ◌≡◌, ◌≢◌, ◌≤◌, ◌⊎◌,
}
use f2ut_platform_frameworks.CursorWindow.Memory.{
  NotIn, fill, fill_inside, fill_outside, read32, read32-write32, read32_same, read32_zero,
  read64_zero, read64, read64_same, write32, write32_outside,
}
use f2ut_platform_frameworks.CursorWindow.{CursorWindow}
use f2ut_platform_frameworks.CursorWindow.Layout.{Layout, Owner, Plan, directory, unused}
use f2ut_platform_frameworks.CursorWindow.Fields.{cell, cell_inside}
use f2ut_platform_frameworks.CursorWindow.Chunks.{
  below_free, chunk_below, chunks_apart, directory_below, directory_outside_chunk,
}
use f2ut_platform_frameworks.CursorWindow.Growth.{Grown}

some_zeros : (a b : ℕ) → a ≡ 0 → b ≡ 0 → ◌≡◌ {A = Option (ℕ × ℕ)} (some (a, b)) (some (0, 0))
some_zeros a b e f = rw (e, f) refl

-- The slot of a row in its chunk.
abbrev pub slot_of : Plan → ℕ → ℕ
slot_of g row = g.chunk_at (row / 100) + 4 * (row % 100)

-- The window, and the plan, with a directory at `dir` for one more row.
abbrev pub with_row : CursorWindow → Plan → ℕ → CursorWindow
with_row w g dir = record w {
  free_offset = dir + w.num_columns * 12;
  num_rows = w.num_rows + 1;
  mem = write32 (slot_of g w.num_rows) dir (fill dir (w.num_columns * 12) w.mem);
}

unfoldable pub row_owner : ℕ → ℕ → ℕ → (ℕ → Owner) → ℕ → Owner
row_owner row dir n owner a = if leb dir a && ltb a (dir + n) then directory row else owner a

row_owner_below :
    (row dir n a : ℕ) (owner : ℕ → Owner) → a < dir → row_owner row dir n owner a ≡ owner a
unfolding row_owner
row_owner_below row dir n a owner h = ground arith

row_owner_above :
    (row dir n a : ℕ) (owner : ℕ → Owner) → dir + n ≤ a → row_owner row dir n owner a ≡ owner a
unfolding row_owner
row_owner_above row dir n a owner h = ground arith

row_owner_inside :
    (row dir n i : ℕ) (owner : ℕ → Owner)
    → i < n
    → row_owner row dir n owner (dir + i) ≡ directory row
unfolding row_owner
row_owner_inside row dir n i owner h = ground arith

unfoldable pub row_dir : ℕ → ℕ → (ℕ → ℕ) → ℕ → ℕ
row_dir row dir dir_at r = if r == row then dir else dir_at r

row_dir_same : (row dir r : ℕ) (dir_at : ℕ → ℕ) → r ≡ row → row_dir row dir dir_at r ≡ dir
unfolding row_dir
row_dir_same row dir r dir_at h = ground arith

row_dir_other : (row dir r : ℕ) (dir_at : ℕ → ℕ) → r ≢ row → row_dir row dir dir_at r ≡ dir_at r
unfolding row_dir
row_dir_other row dir r dir_at h = ground arith

abbrev pub plan_row : CursorWindow → Plan → ℕ → Plan
plan_row w g dir = record g {
  owner = row_owner w.num_rows dir (w.num_columns * 12) g.owner;
  dir_at = row_dir w.num_rows dir g.dir_at;
}

module _ (w : CursorWindow) (g : Plan) (l : Layout w g) (dir : ℕ)
    (hole : suc w.num_rows ≤ 100 * g.used) (behind : w.free_offset ≤ dir)
    (fit : dir + w.num_columns * 12 ≤ w.size) where
  -- Bytes in use, but for the new row's slot, keep what they hold.
  with_row_byte :
      (a : ℕ)
      → a < w.free_offset
      → NotIn a (slot_of g w.num_rows) 4
      → (with_row w g dir).mem a ≡ w.mem a
  with_row_byte a low out =
      write32_outside (slot_of g w.num_rows) dir a (fill dir (w.num_columns * 12) w.mem) out
      ∙ fill_outside dir (w.num_columns * 12) a w.mem (inl (omega arith))

  -- A word of a chunk beside the new row's slot is kept.
  with_row_word :
      (k i : ℕ)
      → k < g.used
      → i + 4 ≤ 404
      → (k ≢ w.num_rows / 100)
        ⊎ ((i + 4 ≤ 4 * (w.num_rows % 100)) ⊎ (4 * (w.num_rows % 100) + 4 ≤ i))
      → read32 (with_row w g dir).mem (g.chunk_at k + i) ≡ read32 w.mem (g.chunk_at k + i)
  with_row_word k i hk hi apart =
      read32_same (g.chunk_at k + i) (with_row w g dir).mem w.mem (λ x hx.
        let at : g.chunk_at k + i + x ≡ g.chunk_at k + (i + x) = omega arith in
        let low = chunk_below w g l k (i + x) hk (omega arith) in
        let beside : (k ≢ w.num_rows / 100) ⊎ NotIn (i + x) (4 * (w.num_rows % 100)) 4 =
          elim apart [
            | inl other ↦ inl other
            | inr (inl before) ↦ inr (inl (omega arith))
            | inr (inr after) ↦ inr (inr (omega arith))
          ] in
        let out =
          chunks_apart w g l k (i + x) (w.num_rows / 100) (4 * (w.num_rows % 100)) 4 hk
            (omega arith) (omega arith) (omega arith) beside in
        ap (with_row w g dir).mem at
        ∙ (with_row_byte (g.chunk_at k + (i + x)) low out ∙ ap w.mem (sym at)))

  with_row-rows :
      (r : ℕ)
      → r < w.num_rows + 1
      → read32 (with_row w g dir).mem (slot_of g r) ≡ (plan_row w g dir).dir_at r
  with_row-rows r h = elim (Bool-cases (r == w.num_rows)) [
    | inl same ↦
        let equal : r ≡ w.num_rows = ground arith in
        ap (λ x. read32 (with_row w g dir).mem (slot_of g x)) equal
        ∙ (read32-write32 (slot_of g w.num_rows) dir (fill dir (w.num_columns * 12) w.mem)
              (omega (arith, l.small, fit))
            ∙ sym (row_dir_same w.num_rows dir r g.dir_at equal))
    | inr apart ↦
        let other : r ≢ w.num_rows = λ e. ground arith in
        let less : r < w.num_rows = ground arith in
        let word =
          with_row_word (r / 100) (4 * (r % 100)) (omega arith) (omega arith)
            (elim (Bool-cases (r / 100 == w.num_rows / 100)) [
              | inl e ↦
                  let quotient : r / 100 ≡ w.num_rows / 100 = ground arith in
                  inr (inl (omega arith))
              | inr e ↦ inl (λ q. ground arith)
            ]) in
        word ∙ (l.rows r less ∙ sym (row_dir_other w.num_rows dir r g.dir_at other))
  ]

  with_row-dir_owner :
      (r i : ℕ)
      → r < w.num_rows + 1
      → i < w.num_columns * 12
      → (plan_row w g dir).owner ((plan_row w g dir).dir_at r + i) ≡ directory r
  with_row-dir_owner r i h hi = elim (Bool-cases (r == w.num_rows)) [
    | inl same ↦
        let equal : r ≡ w.num_rows = ground arith in
        ap (λ d. (plan_row w g dir).owner (d + i)) (row_dir_same w.num_rows dir r g.dir_at equal)
        ∙ (row_owner_inside w.num_rows dir (w.num_columns * 12) i g.owner hi
            ∙ ap directory (sym equal))
    | inr apart ↦
        let other : r ≢ w.num_rows = λ e. ground arith in
        let less : r < w.num_rows = ground arith in
        let low = directory_below w g l r i less hi in
        ap (λ d. (plan_row w g dir).owner (d + i)) (row_dir_other w.num_rows dir r g.dir_at other)
        ∙ (row_owner_below w.num_rows dir (w.num_columns * 12) (g.dir_at r + i) g.owner
              (omega arith)
            ∙ l.dir_owner r i less hi)
  ]

  with_row-Layout : Layout (with_row w g dir) (plan_row w g dir)
  with_row-Layout =
      let next : (k : ℕ)
          → k < g.used
          → read32 (with_row w g dir).mem (g.chunk_at k + 400) ≡ read32 w.mem (g.chunk_at k + 400) =
        λ k hk. with_row_word k 400 hk (omega arith) (inr (inr (omega arith))) in
      record {
        first = l.first;
        chain = λ k h. next k (omega arith) ∙ l.chain k h;
        last = λ k h. next k (omega arith) ∙ l.last k h;
        real = l.real;
        chunk_owner = λ k i hk hi.
            row_owner_below w.num_rows dir (w.num_columns * 12) (g.chunk_at k + i) g.owner
              (omega (arith, behind, chunk_below w g l k i hk hi))
            ∙ l.chunk_owner k i hk hi;
        rows = with_row-rows;
        dir_owner = with_row-dir_owner;
        room = omega arith;
        some_chunk = l.some_chunk;
        free = λ a h.
            row_owner_above w.num_rows dir (w.num_columns * 12) a g.owner h
            ∙ l.free a (omega arith);
        fits = fit;
        small = l.small;
      }

  pub with_row-Grown : Grown w g (with_row w g dir) (plan_row w g dir)
  with_row-Grown =
      let low : (a r : ℕ) → g.owner a ≡ directory r → a < w.free_offset =
        λ a r o. below_free w g l a (λ e. let both : directory r ≡ unused = sym o ∙ e in cc) in
      record {
        layout = with_row-Layout;
        columns = refl;
        same_size = refl;
        same_access = refl;
        more_rows = omega arith;
        dirs = λ r h. row_dir_other w.num_rows dir r g.dir_at (λ e. omega arith);
        kept = λ a r h o. with_row_byte a (low a r o) (
            directory_outside_chunk w g l a r (w.num_rows / 100) (4 * (w.num_rows % 100)) 4 o
              (omega (arith, hole)) (omega arith));
        owners = λ a r h o.
            row_owner_below w.num_rows dir (w.num_columns * 12) a g.owner
              (omega (arith, behind, low a r o))
            ∙ o;
      }

  -- The fields of the new row are NULL.
  pub with_row-cell :
      (column : ℕ)
      → column < w.num_columns
      → cell (with_row w g dir) w.num_rows column ≡ some (0, 0)
  with_row-cell column hc =
      let n = w.num_columns * 12 in
      let low =
        chunk_below w g l (w.num_rows / 100) (4 * (w.num_rows % 100) + 3) (omega (arith, hole))
          (omega arith) in
      let zeros : ℕ → ℕ = λ a. 0 in
      let byte : (i : ℕ) → i < 12 → (with_row w g dir).mem (dir + column * 12 + i) ≡ 0 = λ i h.
        let at : dir + column * 12 + i ≡ dir + (column * 12 + i) = omega arith in
        write32_outside (slot_of g w.num_rows) dir (dir + column * 12 + i) (fill dir n w.mem)
          (inr (omega arith))
        ∙ (ap (fill dir n w.mem) at ∙ fill_inside dir n (column * 12 + i) w.mem (grind arith)) in
      let type =
        read32_same (dir + column * 12) (with_row w g dir).mem zeros
          (λ i h. byte i (omega arith)) in
      let value = read64_same (dir + column * 12 + 4) (with_row w g dir).mem zeros (λ i h.
        let place : dir + column * 12 + 4 + i ≡ dir + column * 12 + (4 + i) = omega arith in
        ap (with_row w g dir).mem place ∙ byte (4 + i) (omega arith)) in
      cell_inside (with_row w g dir) (plan_row w g dir) with_row-Layout w.num_rows column
        (omega arith) hc
      ∙ (ap
            (λ d. some (
              read32 (with_row w g dir).mem (d + column * 12),
              read64 (with_row w g dir).mem (d + column * 12 + 4),
            ))
            (row_dir_same w.num_rows dir w.num_rows g.dir_at refl)
          ∙ some_zeros (read32 (with_row w g dir).mem (dir + column * 12))
              (read64 (with_row w g dir).mem (dir + column * 12 + 4))
              (type ∙ read32_zero (dir + column * 12))
              (value ∙ read64_zero (dir + column * 12 + 4)))
