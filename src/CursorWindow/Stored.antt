-- ===== src/CursorWindow/Stored.antt =====
-- What putBlob and putString of libs/androidfw/CursorWindow.cpp store.
use f2ut_platform_frameworks.Prelude.{
  List, ap, arith, false, inl, inr, length, some, subst, sym, ℕ, ◌*◌, ◌+◌, ◌<◌, ◌^◌, ◌∙◌, ◌≡◌, ◌≢◌,
  ◌≤◌, ◌⊎◌,
}
use f2ut_platform_frameworks.Prelude.{get_or}
use f2ut_platform_frameworks.CursorWindow.Memory.{write_bytes_inside}
use f2ut_platform_frameworks.CursorWindow.{CursorWindow, no_memory, ok, put_blob_or_string}
use f2ut_platform_frameworks.CursorWindow.Layout.{
  Layout, NotIn-owner, Plan, directory, unused, value,
}
use f2ut_platform_frameworks.CursorWindow.Fields.{cell, field_owner, write_field_outside}
use f2ut_platform_frameworks.CursorWindow.Chunks.{
  alloc-Allocated, below_free, chunk_below, directory_below,
}
use f2ut_platform_frameworks.CursorWindow.Growth.{Grown-cell}
use f2ut_platform_frameworks.CursorWindow.Put.{
  with_field-Layout, with_field-cell, with_field-cell_other,
}
use f2ut_platform_frameworks.CursorWindow.Blob.{
  blob_word, plan_value, put_full, put_stored, with_blob, with_value, with_value-Grown,
  with_value-Layout, with_value_byte,
}

-- What a value that was stored is: the field has the type, the offset and the size, the bytes stand
-- at the offset, and the other fields of the rows, the values and the layout are kept.
abbrev pub Stored : CursorWindow → Plan → ℕ → ℕ → ℕ → List ℕ → CursorWindow → Type 0
Stored w g row column type bytes w' =
    (off : ℕ) × (cell w' row column ≡ some (type, off + length bytes * 2 ^ 32))
    × ((i : ℕ) → i < length bytes → w'.mem (off + i) ≡ get_or bytes i 0)
    × ((r c : ℕ) → r < w.num_rows → (r ≢ row) ⊎ (c ≢ column) → cell w' r c ≡ cell w r c)
    × ((a : ℕ) → g.owner a ≡ value → w'.mem a ≡ w.mem a)
    × ((g' : Plan) × Layout w' g')

with_blob-Stored :
    (w : CursorWindow) (g : Plan) (row column type : ℕ) (bytes : List ℕ) (off : ℕ)
    → Layout w g
    → row < w.num_rows
    → column < w.num_columns
    → type < 2 ^ 32
    → w.free_offset ≤ off
    → off + length bytes ≤ w.size
    → Stored w g row column type bytes (with_blob w g row column type bytes off)
with_blob-Stored w g row column type bytes off l hr hc ht behind fit =
    let w1 = with_value w bytes off in
    let g1 = plan_value g off (length bytes) in
    let l1 = with_value-Layout w g l bytes off behind fit in
    let slot = g.dir_at row + column * 12 in
    let word = blob_word off bytes in
    let size : word ≡ off + length bytes * 2 ^ 32 = omega (arith, l.small, fit) in
    let stored =
      with_field-cell w1 g1 l1 row column type word hr hc ht (omega (arith, l.small, fit)) in
    (
      off,
      stored ∙ ap (λ v. some (type, v)) size,
      (λ i h.
          let low = directory_below w g l row (column * 12 + 11) hr (grind arith) in
          write_field_outside slot type word (off + i) w1.mem (inr (omega arith))
          ∙ write_bytes_inside off i bytes w.mem h),
      (λ r c h other.
          with_field-cell_other w1 g1 l1 row column type word hr hc r c other
          ∙ Grown-cell w w1 g g1 r c l (with_value-Grown w g l bytes off behind fit) h),
      (λ a o.
          let low = below_free w g l a (λ e. let both : value ≡ unused = sym o ∙ e in cc) in
          let out =
            NotIn-owner g.owner a slot 12 (directory row)
              (λ j hj. field_owner w g l row column j hr hc hj)
              (λ e. let both : value ≡ directory row = sym o ∙ e in cc) in
          write_field_outside slot type word a w1.mem out
          ∙ with_value_byte w g l bytes off behind fit a low),
      (g1, with_field-Layout w1 g1 l1 row column type word hr hc),
    )

-- In a window whose memory is laid out by a plan, and that is not read-only, putBlob and putString
-- of a value whose size with the window's is below 2 ^ 32 - 512, in a row and a column in range,
-- either answer NO_MEMORY and leave the window as it is, or succeed: the field then has the type,
-- and an offset and the value's size, the value's bytes stand at that offset, every other field of
-- the rows and every byte of a value that was there are as before, and a plan lays the memory out.
pub put_blob_or_string-Stored :
    (w : CursorWindow) (g : Plan) (row column type : ℕ) (bytes : List ℕ)
    → Layout w g
    → w.read_only ≡ false
    → row < w.num_rows
    → column < w.num_columns
    → type < 2 ^ 32
    → w.size + length bytes + 512 < 2 ^ 32
    → (put_blob_or_string row column bytes type w ≡ (w, no_memory))
      ⊎ (((put_blob_or_string row column bytes type w).1 ≡ ok)
          × Stored w g row column type bytes (put_blob_or_string row column bytes type w).0)
put_blob_or_string-Stored w g row column type bytes l writable hr hc ht small =
    let low = chunk_below w g l 0 403 l.some_chunk (omega arith) in
    elim (alloc-Allocated (length bytes) false w l.fits small) [
      | inl no_room ↦ inl (put_full w g l row column type bytes writable hr hc no_room)
      | inr (off, given, behind, fit) ↦
          let real : off ≢ 0 = λ e. omega arith in
          let done = put_stored w g l row column type bytes off writable hr hc real given in
          inr (
            ap (λ x. x.1) done,
            subst (λ x. Stored w g row column type bytes x.0) (sym done)
                (with_blob-Stored w g row column type bytes off l hr hc ht behind fit),
          )
    ]
