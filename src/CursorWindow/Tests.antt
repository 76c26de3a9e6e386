-- ===== src/CursorWindow/Tests.antt =====
-- Runs of libs/androidfw/CursorWindow.cpp on small windows.
use f2ut_platform_frameworks.Prelude.{
  [], arith, false, refl, some, ℕ, ◌*◌, ◌+◌, ◌<◌, ◌^◌, ◌≡◌, ◌≢◌, ◌⊎◌, ◌∷◌, true,
}
use f2ut_platform_frameworks.CursorWindow.Memory.{fill, read32, write32}
use f2ut_platform_frameworks.CursorWindow.{
  CursorWindow, alloc, alloc_directory, alloc_row, alloc_row_slot, clear, no_memory, ok, open_chunk,
  padding, put_blob_or_string, put_field, set_num_columns, slot_in, take_slot, walk_chunks,
}
use f2ut_platform_frameworks.CursorWindow.Layout.{Layout, Plan}
use f2ut_platform_frameworks.CursorWindow.Fields.{cell}
use f2ut_platform_frameworks.CursorWindow.Put.{put_field-cell}
use f2ut_platform_frameworks.CursorWindow.Rows.{RowAdded, alloc_row-cells}
use f2ut_platform_frameworks.CursorWindow.Sound.{Sound}
use f2ut_platform_frameworks.CursorWindow.Stored.{Stored, put_blob_or_string-Stored}
use f2ut_platform_frameworks.CursorWindow.Reach.{
  Reach, Reach-Sound, Reach-fields, Reach-rows, cleared, columns_set, row_allocated,
}
use f2ut_platform_frameworks.CursorWindow.Wrap.{alloc-wrap}

abbrev raw : CursorWindow
raw = record {
  size = 600;
  read_only = false;
  free_offset = 0;
  first_chunk_offset = 0;
  num_rows = 0;
  num_columns = 0;
  mem = λ i. 0;
}

-- Two rows of two columns.
abbrev two_rows : CursorWindow
two_rows = (alloc_row (alloc_row (set_num_columns 2 (clear raw).0).0).0).0

raw_size : (clear raw).0.size ≡ 600
unfolding clear
raw_size = refl

two_rows-Reach : Reach two_rows
two_rows-Reach = row_allocated (alloc_row (set_num_columns 2 (clear raw).0).0).0 (
    row_allocated (set_num_columns 2 (clear raw).0).0 (
      columns_set 2 (clear raw).0 (omega (arith, raw_size))
        (cleared raw refl (omega arith) (omega arith))))

two_rows-rows : two_rows.num_rows ≡ 2
unfolding clear set_num_columns alloc_row alloc_directory alloc_row_slot slot_in open_chunk
    take_slot walk_chunks alloc padding read32 write32 fill
two_rows-rows = refl

two_rows-columns : two_rows.num_columns ≡ 2
unfolding clear set_num_columns alloc_row alloc_directory alloc_row_slot slot_in open_chunk
    take_slot walk_chunks alloc padding read32 write32 fill
two_rows-columns = refl

two_rows-size : two_rows.size ≡ 600
unfolding clear set_num_columns alloc_row alloc_directory alloc_row_slot slot_in open_chunk
    take_slot walk_chunks alloc padding read32 write32 fill
two_rows-size = refl

abbrev two_rows-Sound : Sound two_rows
two_rows-Sound = Reach-Sound two_rows two_rows-Reach

put_field-cell_example :
    ((put_field 1 0 1 77 two_rows).1 ≡ ok)
    × (cell (put_field 1 0 1 77 two_rows).0 1 0 ≡ some (1, 77))
    × ((r c : ℕ) → (r ≢ 1) ⊎ (c ≢ 0) → cell (put_field 1 0 1 77 two_rows).0 r c ≡ cell two_rows r c)
    × Layout (put_field 1 0 1 77 two_rows).0 two_rows-Sound.0.0
put_field-cell_example =
    put_field-cell two_rows two_rows-Sound.0.0 1 0 1 77 two_rows-Sound.0.1 two_rows-Sound.1
      (omega (arith, two_rows-rows)) (omega (arith, two_rows-columns)) (omega arith) (omega arith)

alloc_row-cells_example :
    ((g' : Plan) × Layout (alloc_row two_rows).0 g')
    × ((r c : ℕ) → r < two_rows.num_rows → cell (alloc_row two_rows).0 r c ≡ cell two_rows r c)
    × RowAdded two_rows.num_rows two_rows.num_columns (alloc_row two_rows)
alloc_row-cells_example =
    alloc_row-cells two_rows two_rows-Sound.0.0 two_rows-Sound.0.1 two_rows-Sound.1 two_rows-Sound.2

put_blob_or_string-Stored_example :
    (put_blob_or_string 0 1 (65 ∷ 66 ∷ 0 ∷ []) 3 two_rows ≡ (two_rows, no_memory))
    ⊎ (((put_blob_or_string 0 1 (65 ∷ 66 ∷ 0 ∷ []) 3 two_rows).1 ≡ ok)
        × Stored two_rows two_rows-Sound.0.0 0 1 3
            (65 ∷ 66 ∷ 0 ∷ [])
            (put_blob_or_string 0 1 (65 ∷ 66 ∷ 0 ∷ []) 3 two_rows).0)
put_blob_or_string-Stored_example =
    put_blob_or_string-Stored two_rows two_rows-Sound.0.0 0 1 3 (65 ∷ 66 ∷ 0 ∷ [])
      two_rows-Sound.0.1 two_rows-Sound.1 (omega (arith, two_rows-rows))
      (omega (arith, two_rows-columns)) (omega arith) (omega (arith, two_rows-size))

Reach-fields_example :
    ((put_field 1 1 3 99 two_rows).1 ≡ ok)
    × (cell (put_field 1 1 3 99 two_rows).0 1 1 ≡ some (3, 99))
    × ((r c : ℕ) → (r ≢ 1) ⊎ (c ≢ 1) → cell (put_field 1 1 3 99 two_rows).0 r c ≡ cell two_rows r c)
Reach-fields_example =
    Reach-fields two_rows 1 1 3 99 two_rows-Reach (omega (arith, two_rows-rows))
      (omega (arith, two_rows-columns)) (omega arith) (omega arith)

Reach-rows_example :
    ((r c : ℕ) → r < two_rows.num_rows → cell (alloc_row two_rows).0 r c ≡ cell two_rows r c)
    × RowAdded two_rows.num_rows two_rows.num_columns (alloc_row two_rows)
Reach-rows_example = Reach-rows two_rows two_rows-Reach

-- 357913942 columns of 12 bytes are 2 ^ 32 + 8 bytes.
alloc-wrap_example : alloc (8 + 1 * 2 ^ 32) true raw ≡ alloc 8 true raw
alloc-wrap_example = alloc-wrap 8 1 true raw
