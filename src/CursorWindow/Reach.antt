-- ===== src/CursorWindow/Reach.antt =====
-- The windows that the operations of libs/androidfw/CursorWindow.cpp make, one after the other,
-- from a window that was cleared.
use f2ut_platform_frameworks.Prelude.{
  List, false, length, some, ℕ, ◌*◌, ◌+◌, ◌<◌, ◌^◌, ◌≡◌, ◌≢◌, ◌≤◌, ◌⊎◌,
}
use f2ut_platform_frameworks.CursorWindow.{
  CursorWindow, alloc_row, clear, free_last_row, ok, put_blob_or_string, put_field, set_num_columns,
}
use f2ut_platform_frameworks.CursorWindow.Fields.{cell}
use f2ut_platform_frameworks.CursorWindow.Put.{put_field-cell}
use f2ut_platform_frameworks.CursorWindow.Rows.{RowAdded, alloc_row-cells}
use f2ut_platform_frameworks.CursorWindow.Blob.{put_blob-Sound}
use f2ut_platform_frameworks.CursorWindow.Sound.{
  Sound, alloc_row-Sound, clear-Sound, free_last_row-Sound, put_field-Sound, set_num_columns-Sound,
}

-- The windows that operations make, whatever status they answer.
pub data Reach : CursorWindow → Type 0 where
  cleared :
      (w : CursorWindow)
      → w.read_only ≡ false
      → 420 ≤ w.size
      → w.size + 1024 < 2 ^ 32
      → Reach (clear w).0
  columns_set :
      (n : ℕ) (w : CursorWindow)
      → w.size + n * 12 + 512 < 2 ^ 32
      → Reach w
      → Reach (set_num_columns n w).0
  row_allocated : (w : CursorWindow) → Reach w → Reach (alloc_row w).0
  row_freed : (w : CursorWindow) → Reach w → Reach (free_last_row w).0
  field_put :
      (row column type v : ℕ) (w : CursorWindow) → Reach w → Reach (put_field row column type v w).0
  blob_put :
      (row column type : ℕ) (bytes : List ℕ) (w : CursorWindow)
      → w.size + length bytes + 512 < 2 ^ 32
      → Reach w
      → Reach (put_blob_or_string row column bytes type w).0

pub Reach-Sound : (w : CursorWindow) → Reach w → Sound w
Reach-Sound _ (cleared w writable large small) = clear-Sound w writable large small
Reach-Sound _ (columns_set n w small r) = set_num_columns-Sound w n small (Reach-Sound w r)
Reach-Sound _ (row_allocated w r) = alloc_row-Sound w (Reach-Sound w r)
Reach-Sound _ (row_freed w r) = free_last_row-Sound w (Reach-Sound w r)
Reach-Sound _ (field_put row column type v w r) =
    put_field-Sound row column type v w (Reach-Sound w r)
Reach-Sound _ (blob_put row column type bytes w small r) =
    put_blob-Sound row column type bytes w small (Reach-Sound w r)

-- Take calls that start with clear of a window that is not read-only and has at least 420 and
-- fewer than 2 ^ 32 - 1024 bytes, and go on with setNumColumns, allocRow, freeLastRow and the puts,
-- where 12 bytes for each column that is set, and the size of each value, are below 2 ^ 32 - 512
-- with the window's size. In the window that they lead to, a field that is put by putLong,
-- putDouble or putNull in a row and column in range is read back with its type and its 8 bytes, and
-- no other field changes.
pub Reach-fields :
    (w : CursorWindow) (row column type v : ℕ)
    → Reach w
    → row < w.num_rows
    → column < w.num_columns
    → type < 2 ^ 32
    → v < 2 ^ 64
    → ((put_field row column type v w).1 ≡ ok)
      × (cell (put_field row column type v w).0 row column ≡ some (type, v))
      × ((r c : ℕ)
          → (r ≢ row) ⊎ (c ≢ column)
          → cell (put_field row column type v w).0 r c ≡ cell w r c)
Reach-fields w row column type v reached hr hc ht hv =
    let ((g, l), writable, fits) = Reach-Sound w reached in
    let (done, there, others, after) =
      put_field-cell w g row column type v l writable hr hc ht hv in
    (done, there, others)

-- Take calls that start with clear of a window that is not read-only and has at least 420 and
-- fewer than 2 ^ 32 - 1024 bytes, and go on with setNumColumns, allocRow, freeLastRow and the puts,
-- where 12 bytes for each column that is set, and the size of each value, are below 2 ^ 32 - 512
-- with the window's size. In the window that they lead to, allocRow keeps every field of the rows
-- there are, and adds a row of NULL fields or answers NO_MEMORY.
pub Reach-rows :
    (w : CursorWindow)
    → Reach w
    → ((r c : ℕ) → r < w.num_rows → cell (alloc_row w).0 r c ≡ cell w r c)
      × RowAdded w.num_rows w.num_columns (alloc_row w)
Reach-rows w reached =
    let ((g, l), writable, fits) = Reach-Sound w reached in
    let (laid, kept, added) = alloc_row-cells w g l writable fits in (kept, added)
