-- ===== src/CursorWindow/Sound.antt =====
-- What clear, setNumColumns, allocRow, freeLastRow and the puts of libs/androidfw/CursorWindow.cpp
-- keep of a window.
use f2ut_platform_frameworks.Prelude.{
  Bool-cases, ap, arith, false, if◌then◌else◌, inl, inr, leb, ltb, not, refl, subst, sym, true, ℕ,
  ◌&&◌, ◌*◌, ◌+◌, ◌-◌, ◌<◌, ◌==◌, ◌^◌, ◌∙◌, ◌≡◌, ◌≤◌, ◌⊎◌, ◌||◌,
}
use f2ut_platform_frameworks.CursorWindow.Memory.{read32-write32, write32}
use f2ut_platform_frameworks.CursorWindow.{
  CursorWindow, alloc_row, bad_value, clear, free_last_row, ok, put_field, set_num_columns,
}
use f2ut_platform_frameworks.CursorWindow.Layout.{
  Layout, Owner, Plan, chunk, get_field_slot_outside, unused,
}
use f2ut_platform_frameworks.CursorWindow.Put.{in_range, put_field_written, with_field-Layout}
use f2ut_platform_frameworks.CursorWindow.Rows.{alloc_row-Outcome}

-- What the operations keep.
abbrev pub Sound : CursorWindow → Type 0
Sound w =
    ((g : Plan) × Layout w g) × (w.read_only ≡ false) × (w.size + w.num_columns * 12 + 512 < 2 ^ 32)

-- The plan of a window that was cleared: one chunk behind the header.
unfoldable clear_owner : ℕ → Owner
clear_owner a = if leb 16 a && ltb a 420 then chunk 0 else unused

clear_owner_chunk : (i : ℕ) → i < 404 → clear_owner (16 + i) ≡ chunk 0
unfolding clear_owner
clear_owner_chunk i h = ground arith

clear_owner_free : (a : ℕ) → 420 ≤ a → clear_owner a ≡ unused
unfolding clear_owner
clear_owner_free a h = ground arith

abbrev plan_clear : Plan
plan_clear = record { owner = clear_owner; chunk_at = λ k. 16; dir_at = λ r. 0; used = 1 }

abbrev cleared_window : CursorWindow → CursorWindow
cleared_window w = record w {
  free_offset = 420;
  first_chunk_offset = 16;
  num_rows = 0;
  num_columns = 0;
  mem = write32 416 0 w.mem;
}

clear-Layout :
    (w : CursorWindow)
    → 420 ≤ w.size
    → w.size + 1024 < 2 ^ 32
    → Layout (cleared_window w) plan_clear
clear-Layout w large small = record {
  first = refl;
  chain = λ k h. omega arith;
  last = λ k h. read32-write32 416 0 w.mem (omega arith);
  real = λ k h e. omega arith;
  chunk_owner = λ k i hk hi.
      let zero_chunk : 0 ≡ k = omega arith in clear_owner_chunk i hi ∙ ap chunk zero_chunk;
  rows = λ r h. omega arith;
  dir_owner = λ r i h hi. absurd (omega arith);
  room = omega arith;
  some_chunk = omega arith;
  free = λ a h. clear_owner_free a h;
  fits = large;
  small = small;
}

clear_lem : (w : CursorWindow) → w.read_only ≡ false → clear w ≡ (cleared_window w, ok)
unfolding clear
clear_lem w writable = simp writable

pub clear-Sound :
    (w : CursorWindow)
    → w.read_only ≡ false
    → 420 ≤ w.size
    → w.size + 1024 < 2 ^ 32
    → Sound (clear w).0
clear-Sound w writable large small =
    subst (λ x. Sound x.0) (sym (clear_lem w writable))
      ((plan_clear, clear-Layout w large small), writable, omega arith)

-- The columns may be another number only where there is no row.
columns-Layout :
    (w : CursorWindow) (g : Plan) (n : ℕ)
    → Layout w g
    → (w.num_rows ≡ 0) ⊎ (w.num_columns ≡ n)
    → Layout (record w { num_columns = n }) g
columns-Layout w g n l same = record {
  first = l.first;
  chain = l.chain;
  last = l.last;
  real = l.real;
  chunk_owner = l.chunk_owner;
  rows = l.rows;
  dir_owner = λ r i h hi. elim same [
    | inl empty ↦ absurd (omega (arith, h, empty))
    | inr equal ↦ l.dir_owner r i h (subst (λ c. i < c * 12) (sym equal) hi)
  ];
  room = l.room;
  some_chunk = l.some_chunk;
  free = l.free;
  fits = l.fits;
  small = l.small;
}

columns_cases :
    (columns rows n : ℕ)
    → (((ltb 0 columns || ltb 0 rows) && not (columns == n)) ≡ true)
      ⊎ ((((ltb 0 columns || ltb 0 rows) && not (columns == n)) ≡ false)
          × ((rows ≡ 0) ⊎ (columns ≡ n)))
columns_cases columns rows n = elim (Bool-cases (columns == n)) [
  | inl same ↦
      let equal : columns ≡ n = ground arith in
      let answer : ((ltb 0 columns || ltb 0 rows) && not (columns == n)) ≡ false = ground arith in
      inr (answer, inr equal)
  | inr apart ↦ elim (Bool-cases (ltb 0 columns || ltb 0 rows)) [
    | inl some_there ↦
        let answer : ((ltb 0 columns || ltb 0 rows) && not (columns == n)) ≡ true =
          simp (some_there, apart) in
        inl answer
    | inr nothing ↦
        let answer : ((ltb 0 columns || ltb 0 rows) && not (columns == n)) ≡ false =
          simp (nothing) in
        let empty : rows ≡ 0 = ground arith in inr (answer, inl empty)
  ]
]

pub set_num_columns-Sound :
    (w : CursorWindow) (n : ℕ)
    → w.size + n * 12 + 512 < 2 ^ 32
    → Sound w
    → Sound (set_num_columns n w).0
unfolding set_num_columns
set_num_columns-Sound w n small sound =
    let ((g, l), writable, fits) = sound in
    elim (columns_cases w.num_columns w.num_rows n) [
      | inl refused ↦
          let same : (set_num_columns n w).0 ≡ w = simp (writable, refused) in
          subst Sound (sym same) sound
      | inr (taken, same) ↦
          let changed : (set_num_columns n w).0 ≡ record w { num_columns = n } =
            simp (writable, taken) in
          subst Sound (sym changed) ((g, columns-Layout w g n l same), writable, small)
    ]

rows-Layout :
    (w : CursorWindow) (g : Plan) (n : ℕ)
    → Layout w g
    → n ≤ w.num_rows
    → Layout (record w { num_rows = n }) g
rows-Layout w g n l less = record {
  first = l.first;
  chain = l.chain;
  last = l.last;
  real = l.real;
  chunk_owner = l.chunk_owner;
  rows = λ r h. l.rows r (omega (arith, h, less));
  dir_owner = λ r i h hi. l.dir_owner r i (omega (arith, h, less)) hi;
  room = omega (arith, l.room, less);
  some_chunk = l.some_chunk;
  free = l.free;
  fits = l.fits;
  small = l.small;
}

pub free_last_row-Sound : (w : CursorWindow) → Sound w → Sound (free_last_row w).0
unfolding free_last_row
free_last_row-Sound w sound =
    let ((g, l), writable, fits) = sound in
    let rows = if ltb 0 w.num_rows then w.num_rows - 1 else w.num_rows in
    let less : rows ≤ w.num_rows = ground arith in
    let changed : (free_last_row w).0 ≡ record w { num_rows = rows } = simp writable in
    subst Sound (sym changed) ((g, rows-Layout w g rows l less), writable, fits)

pub alloc_row-Sound : (w : CursorWindow) → Sound w → Sound (alloc_row w).0
alloc_row-Sound w sound =
    let ((g, l), writable, fits) = sound in
    let (g', grown, added) = alloc_row-Outcome w g l writable fits in
    (
      (g', grown.layout),
      grown.same_access ∙ writable,
      omega (arith, fits, grown.same_size, grown.columns),
    )

put_refused :
    (row column type v : ℕ) (w : CursorWindow)
    → (w.num_rows ≤ row) ⊎ (w.num_columns ≤ column)
    → w.read_only ≡ false
    → put_field row column type v w ≡ (w, bad_value)
unfolding put_field
put_refused row column type v w out writable =
    simp (writable, get_field_slot_outside row column w out)

pub put_field-Sound :
    (row column type v : ℕ) (w : CursorWindow) → Sound w → Sound (put_field row column type v w).0
put_field-Sound row column type v w sound =
    let ((g, l), writable, fits) = sound in
    elim (in_range row w.num_rows column w.num_columns) [
      | inl (hr, hc) ↦
          subst (λ x. Sound x.0) (sym (put_field_written w g l row column type v hr hc writable))
            ((g, with_field-Layout w g l row column type v hr hc), writable, fits)
      | inr out ↦ subst (λ x. Sound x.0) (sym (put_refused row column type v w out writable)) sound
    ]
