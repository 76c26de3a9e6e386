-- ===== src/CursorWindow/Put.antt =====
-- putLong, putDouble and putNull of libs/androidfw/CursorWindow.cpp: what they do to the field and
-- to the other fields of the window.
use f2ut_platform_frameworks.Prelude.{
  Bool-cases, ap, false, inl, inr, ltb, refl, some, sym, ℕ, ◌*◌, ◌+◌, ◌<◌, ◌∙◌, ◌≡◌, ◌≢◌, ◌≤◌, ◌⊎◌,
  ◌^◌, arith,
}
use f2ut_platform_frameworks.CursorWindow.Memory.{read32_same, read64_same}
use f2ut_platform_frameworks.CursorWindow.{CursorWindow, ok, put_field, write_field}
use f2ut_platform_frameworks.CursorWindow.Layout.{
  Layout, Layout-mem, NotIn-owner, Plan, chunk, directory, get_field_slot_lem,
}
use f2ut_platform_frameworks.CursorWindow.Fields.{
  cell, cell_inside, cell_outside, field_owner, fields_apart, read_written, write_field_outside,
}

-- The window after a field was written at a slot.
abbrev pub with_field : ℕ → ℕ → ℕ → CursorWindow → CursorWindow
with_field slot type v w = record w { mem = write_field slot type v w.mem }

pub in_range : (a b c d : ℕ) → ((a < b) × (c < d)) ⊎ ((b ≤ a) ⊎ (d ≤ c))
in_range a b c d = elim (Bool-cases (ltb a b)) [
  | inl low ↦ elim (Bool-cases (ltb c d)) [
    | inl both ↦ inl (ground arith, ground arith)
    | inr high ↦ inr (inr (ground arith))
  ]
  | inr high ↦ inr (inl (ground arith))
]

module _ (w : CursorWindow) (g : Plan) (l : Layout w g) (row column type v : ℕ)
    (hr : row < w.num_rows) (hc : column < w.num_columns) where
  pub with_field-Layout : Layout (with_field (g.dir_at row + column * 12) type v w) g
  with_field-Layout =
      Layout-mem w g (write_field (g.dir_at row + column * 12) type v w.mem) l (λ a k of_chunk.
        write_field_outside (g.dir_at row + column * 12) type v a w.mem (
          NotIn-owner g.owner a (g.dir_at row + column * 12) 12 (directory row)
            (λ j hj. field_owner w g l row column j hr hc hj)
            (λ e. let both : chunk k ≡ directory row = sym of_chunk ∙ e in cc)))

  pub with_field-cell :
      type < 2 ^ 32
      → v < 2 ^ 64
      → cell (with_field (g.dir_at row + column * 12) type v w) row column ≡ some (type, v)
  with_field-cell ht hv =
      let slot = g.dir_at row + column * 12 in
      let (t, u) = read_written slot type v w.mem ht hv in
      cell_inside (with_field slot type v w) g with_field-Layout row column hr hc ∙ rw (t, u) refl

  pub with_field-cell_other :
      (r c : ℕ)
      → (r ≢ row) ⊎ (c ≢ column)
      → cell (with_field (g.dir_at row + column * 12) type v w) r c ≡ cell w r c
  with_field-cell_other r c other = elim (in_range r w.num_rows c w.num_columns) [
    | inl (hr', hc') ↦
        let slot = g.dir_at row + column * 12 in
        let at = g.dir_at r + c * 12 in
        let m = write_field slot type v w.mem in
        let byte : ((i : ℕ) → i < 12 → m (at + i) ≡ w.mem (at + i)) = λ i h.
          write_field_outside slot type v (at + i) w.mem
            (fields_apart w g l row column r c i hr hc hr' hc' other h) in
        let low = read32_same at m w.mem (λ i h. byte i (omega arith)) in
        let high = read64_same (at + 4) m w.mem (λ i h.
          let place : at + 4 + i ≡ at + (4 + i) = omega arith in
          ap m place ∙ (byte (4 + i) (omega arith) ∙ ap w.mem (sym place))) in
        cell_inside (with_field slot type v w) g with_field-Layout r c hr' hc'
        ∙ (rw (low, high) refl ∙ sym (cell_inside w g l r c hr' hc'))
    | inr out ↦
        cell_outside (with_field (g.dir_at row + column * 12) type v w) r c out
        ∙ sym (cell_outside w r c out)
  ]

  pub put_field_written :
      w.read_only ≡ false
      → put_field row column type v w ≡ (with_field (g.dir_at row + column * 12) type v w, ok)
  unfolding put_field
  put_field_written writable = simp (writable, get_field_slot_lem w g l row column hr hc)

-- In a window whose memory is laid out by a plan, and that is not read-only, putLong, putDouble and
-- putNull succeed for every row and column in range: the field then has the type and the 8 bytes,
-- every other field, and every field out of range, reads as before, and the memory is laid out by
-- the same plan.
pub put_field-cell :
    (w : CursorWindow) (g : Plan) (row column type v : ℕ)
    → Layout w g
    → w.read_only ≡ false
    → row < w.num_rows
    → column < w.num_columns
    → type < 2 ^ 32
    → v < 2 ^ 64
    → ((put_field row column type v w).1 ≡ ok)
      × (cell (put_field row column type v w).0 row column ≡ some (type, v))
      × ((r c : ℕ)
          → (r ≢ row) ⊎ (c ≢ column)
          → cell (put_field row column type v w).0 r c ≡ cell w r c)
      × Layout (put_field row column type v w).0 g
put_field-cell w g row column type v l writable hr hc ht hv =
    rw (put_field_written w g l row column type v hr hc writable) (
      refl,
      with_field-cell w g l row column type v hr hc ht hv,
      with_field-cell_other w g l row column type v hr hc,
      with_field-Layout w g l row column type v hr hc,
    )
