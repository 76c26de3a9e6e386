-- ===== src/CursorWindow/Fields.antt =====
-- Writing and reading fields of a CursorWindow (libs/androidfw/CursorWindow.cpp).
use f2ut_platform_frameworks.Prelude.{
  Bool-cases, Option, ap, arith, inl, inr, ltb, none, refl, some, sym, ℕ, ◌*◌, ◌+◌, ◌<◌, ◌==◌, ◌^◌,
  ◌∙◌, ◌≡◌, ◌≢◌, ◌≤◌, ◌⊎◌, ◌>>=◌,
}
use f2ut_platform_frameworks.CursorWindow.Memory.{
  NotIn, read32, read32-write32, read32_same, read64, read64-write64, write32, write32_outside,
  write64, write64_outside,
}
use f2ut_platform_frameworks.CursorWindow.{
  CursorWindow, field_slot_type, field_slot_value_long, get_field_slot, write_field,
}
use f2ut_platform_frameworks.CursorWindow.Layout.{
  Layout, NotIn-owner, Plan, directory, get_field_slot_lem, get_field_slot_outside,
}

-- What a reader finds in a field: its type, and its 8 bytes as a long.
unfoldable pub cell : CursorWindow → ℕ → ℕ → Option (ℕ × ℕ)
unfolding field_slot_type field_slot_value_long
cell w row column = do
  slot ← get_field_slot row column w
  some (field_slot_type w slot, field_slot_value_long w slot)

pub write_field_outside :
    (slot type v i : ℕ) (m : ℕ → ℕ) → NotIn i slot 12 → write_field slot type v m i ≡ m i
unfolding write_field
write_field_outside slot type v i m (inl h) =
    write64_outside (slot + 4) v i (write32 slot type m) (inl (omega arith))
    ∙ write32_outside slot type i m (inl h)
write_field_outside slot type v i m (inr h) =
    write64_outside (slot + 4) v i (write32 slot type m) (inr (omega arith))
    ∙ write32_outside slot type i m (inr (omega arith))

pub read_written :
    (slot type v : ℕ) (m : ℕ → ℕ)
    → type < 2 ^ 32
    → v < 2 ^ 64
    → (read32 (write_field slot type v m) slot ≡ type)
      × (read64 (write_field slot type v m) (slot + 4) ≡ v)
unfolding write_field
read_written slot type v m ht hv = (
  read32_same slot (write64 (slot + 4) v (write32 slot type m)) (write32 slot type m)
        (λ i h. write64_outside (slot + 4) v (slot + i) (write32 slot type m) (inl (omega arith)))
      ∙ read32-write32 slot type m ht,
  read64-write64 (slot + 4) v (write32 slot type m) hv,
)

columns_apart :
    (d d' column column' i : ℕ)
    → d' ≡ d
    → column' ≢ column
    → i < 12
    → NotIn (d' + column' * 12 + i) (d + column * 12) 12
columns_apart d d' column column' i e apart hi = elim (Bool-cases (ltb column' column)) [
  | inl before ↦ let less : column' < column = ground arith in inl (omega (arith, e, less, hi))
  | inr behind ↦ let more : column < column' = ground arith in inr (omega (arith, e, more, hi))
]

module _ (w : CursorWindow) (g : Plan) (l : Layout w g) where
  -- A field belongs to the directory of its row.
  pub field_owner :
      (row column i : ℕ)
      → row < w.num_rows
      → column < w.num_columns
      → i < 12
      → g.owner (g.dir_at row + column * 12 + i) ≡ directory row
  field_owner row column i hr hc hi =
      let at : g.dir_at row + column * 12 + i ≡ g.dir_at row + (column * 12 + i) = omega arith in
      ap g.owner at ∙ l.dir_owner row (column * 12 + i) hr (grind arith)

  -- Fields of different rows or columns have no byte in common.
  pub fields_apart :
      (row column row' column' i : ℕ)
      → row < w.num_rows
      → column < w.num_columns
      → row' < w.num_rows
      → column' < w.num_columns
      → (row' ≢ row) ⊎ (column' ≢ column)
      → i < 12
      → NotIn (g.dir_at row' + column' * 12 + i) (g.dir_at row + column * 12) 12
  fields_apart row column row' column' i hr hc hr' hc' other hi = elim (Bool-cases (row' == row)) [
    | inl same ↦
        let equal : row' ≡ row = ground arith in
        let apart : column' ≢ column = elim other [ inl n ↦ absurd (n equal) | inr n ↦ n ] in
        let at : g.dir_at row' ≡ g.dir_at row = ap g.dir_at equal in
        columns_apart (g.dir_at row) (g.dir_at row') column column' i at apart hi
    | inr apart ↦
        NotIn-owner g.owner (g.dir_at row' + column' * 12 + i) (g.dir_at row + column * 12) 12
          (directory row) (λ j hj. field_owner row column j hr hc hj)
          (λ e.
            let rows : directory row' ≡ directory row =
              sym (field_owner row' column' i hr' hc' hi) ∙ e in
            let equal : row' ≡ row = cc in ground arith)
  ]

  -- The cell of a field in range is what stands in the field's slot.
  pub cell_inside :
      (row column : ℕ)
      → row < w.num_rows
      → column < w.num_columns
      → cell w row column
        ≡ some (
          read32 w.mem (g.dir_at row + column * 12),
          read64 w.mem (g.dir_at row + column * 12 + 4),
        )
  unfolding cell field_slot_type field_slot_value_long
  cell_inside row column hr hc = rw (get_field_slot_lem w g l row column hr hc) refl

pub cell_outside :
    (w : CursorWindow) (row column : ℕ)
    → (w.num_rows ≤ row) ⊎ (w.num_columns ≤ column)
    → cell w row column ≡ none
unfolding cell
cell_outside w row column h = rw (get_field_slot_outside row column w h) refl
