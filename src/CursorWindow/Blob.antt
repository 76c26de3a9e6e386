-- ===== src/CursorWindow/Blob.antt =====
-- putBlob and putString of libs/androidfw/CursorWindow.cpp.
use f2ut_platform_frameworks.Prelude.{
  List, arith, false, if◌then◌else◌, inl, inr, leb, length, ltb, refl, subst, sym, ℕ, ◌%◌, ◌&&◌,
  ◌*◌, ◌+◌, ◌<◌, ◌==◌, ◌^◌, ◌∙◌, ◌≡◌, ◌≢◌, ◌≤◌, ◌⊎◌,
}
use f2ut_platform_frameworks.CursorWindow.Memory.{write_bytes, write_bytes_outside}
use f2ut_platform_frameworks.CursorWindow.{
  CursorWindow, alloc, bad_value, no_memory, ok, put_blob_or_string,
}
use f2ut_platform_frameworks.CursorWindow.Layout.{
  Layout, Layout-mem, Owner, Plan, chunk, directory, get_field_slot_lem, get_field_slot_outside,
  unused, value,
}
use f2ut_platform_frameworks.CursorWindow.Chunks.{
  alloc-Allocated, below_free, chunk_below, directory_below,
}
use f2ut_platform_frameworks.CursorWindow.Growth.{Grown}
use f2ut_platform_frameworks.CursorWindow.Sound.{Sound}
use f2ut_platform_frameworks.CursorWindow.Put.{in_range, with_field, with_field-Layout}

unfoldable pub value_owner : ℕ → ℕ → (ℕ → Owner) → ℕ → Owner
value_owner off n owner a = if leb off a && ltb a (off + n) then value else owner a

value_owner_below :
    (off n a : ℕ) (owner : ℕ → Owner) → a < off → value_owner off n owner a ≡ owner a
unfolding value_owner
value_owner_below off n a owner h = ground arith

value_owner_above :
    (off n a : ℕ) (owner : ℕ → Owner) → off + n ≤ a → value_owner off n owner a ≡ owner a
unfolding value_owner
value_owner_above off n a owner h = ground arith

-- The window, and the plan, with the bytes of a value at `off`.
abbrev pub with_value : CursorWindow → List ℕ → ℕ → CursorWindow
with_value w bytes off = record w {
  free_offset = off + length bytes;
  mem = write_bytes off bytes w.mem;
}

abbrev pub plan_value : Plan → ℕ → ℕ → Plan
plan_value g off n = record g { owner = value_owner off n g.owner }

-- The 8 bytes of a field for a value: its offset and its size.
abbrev pub blob_word : ℕ → List ℕ → ℕ
blob_word off bytes = off + length bytes % 2 ^ 32 * 2 ^ 32

module _ (w : CursorWindow) (g : Plan) (l : Layout w g) (bytes : List ℕ) (off : ℕ)
    (behind : w.free_offset ≤ off) (fit : off + length bytes ≤ w.size) where
  -- The bytes in use are kept.
  pub with_value_byte : (a : ℕ) → a < w.free_offset → (with_value w bytes off).mem a ≡ w.mem a
  with_value_byte a low = write_bytes_outside off a bytes w.mem (inl (omega arith))

  pub with_value-Layout : Layout (with_value w bytes off) (plan_value g off (length bytes))
  with_value-Layout =
      let kept = Layout-mem w g (write_bytes off bytes w.mem) l (λ a k o.
        with_value_byte a
          (below_free w g l a (λ e. let both : chunk k ≡ unused = sym o ∙ e in cc))) in
      record {
        first = kept.first;
        chain = kept.chain;
        last = kept.last;
        real = kept.real;
        chunk_owner = λ k i hk hi.
            value_owner_below off (length bytes) (g.chunk_at k + i) g.owner
              (omega (arith, behind, chunk_below w g l k i hk hi))
            ∙ l.chunk_owner k i hk hi;
        rows = kept.rows;
        dir_owner = λ r i h hi.
            value_owner_below off (length bytes) (g.dir_at r + i) g.owner
              (omega (arith, behind, directory_below w g l r i h hi))
            ∙ l.dir_owner r i h hi;
        room = l.room;
        some_chunk = l.some_chunk;
        free = λ a h. value_owner_above off (length bytes) a g.owner h ∙ l.free a (omega arith);
        fits = fit;
        small = l.small;
      }

  pub with_value-Grown : Grown w g (with_value w bytes off) (plan_value g off (length bytes))
  with_value-Grown =
      let low : (a r : ℕ) → g.owner a ≡ directory r → a < w.free_offset =
        λ a r o. below_free w g l a (λ e. let both : directory r ≡ unused = sym o ∙ e in cc) in
      record {
        layout = with_value-Layout;
        columns = refl;
        same_size = refl;
        same_access = refl;
        more_rows = omega arith;
        dirs = λ r h. refl;
        kept = λ a r h o. with_value_byte a (low a r o);
        owners = λ a r h o.
            value_owner_below off (length bytes) a g.owner (omega (arith, behind, low a r o)) ∙ o;
      }

pub put_full :
    (w : CursorWindow) (g : Plan) (l : Layout w g) (row column type : ℕ) (bytes : List ℕ)
    → w.read_only ≡ false
    → row < w.num_rows
    → column < w.num_columns
    → alloc (length bytes) false w ≡ (w, 0)
    → put_blob_or_string row column bytes type w ≡ (w, no_memory)
unfolding put_blob_or_string
put_full w g l row column type bytes writable hr hc no_room =
    simp (writable, get_field_slot_lem w g l row column hr hc, no_room)

-- The window with the value, and the field that leads to it.
abbrev pub with_blob : CursorWindow → Plan → ℕ → ℕ → ℕ → List ℕ → ℕ → CursorWindow
with_blob w g row column type bytes off =
    with_field (g.dir_at row + column * 12) type (blob_word off bytes) (with_value w bytes off)

pub put_stored :
    (w : CursorWindow) (g : Plan) (l : Layout w g) (row column type : ℕ) (bytes : List ℕ) (off : ℕ)
    → w.read_only ≡ false
    → row < w.num_rows
    → column < w.num_columns
    → off ≢ 0
    → alloc (length bytes) false w ≡ (record w { free_offset = off + length bytes }, off)
    → put_blob_or_string row column bytes type w ≡ (with_blob w g row column type bytes off, ok)
unfolding put_blob_or_string
put_stored w g l row column type bytes off writable hr hc real given =
    let some_offset : (off == 0) ≡ false = ground arith in
    simp (writable, get_field_slot_lem w g l row column hr hc, given, some_offset)

put_blob_refused :
    (w : CursorWindow) (row column type : ℕ) (bytes : List ℕ)
    → (w.num_rows ≤ row) ⊎ (w.num_columns ≤ column)
    → w.read_only ≡ false
    → put_blob_or_string row column bytes type w ≡ (w, bad_value)
unfolding put_blob_or_string
put_blob_refused w row column type bytes out writable =
    simp (writable, get_field_slot_outside row column w out)

-- What putBlob and putString keep of a window.
pub put_blob-Sound :
    (row column type : ℕ) (bytes : List ℕ) (w : CursorWindow)
    → w.size + length bytes + 512 < 2 ^ 32
    → Sound w
    → Sound (put_blob_or_string row column bytes type w).0
put_blob-Sound row column type bytes w small sound =
    let ((g, l), writable, fits) = sound in
    let low = chunk_below w g l 0 403 l.some_chunk (omega arith) in
    elim (in_range row w.num_rows column w.num_columns) [
      | inr out ↦
          subst (λ x. Sound x.0) (sym (put_blob_refused w row column type bytes out writable)) sound
      | inl (hr, hc) ↦ elim (alloc-Allocated (length bytes) false w l.fits small) [
        | inl no_room ↦
            subst (λ x. Sound x.0)
              (sym (put_full w g l row column type bytes writable hr hc no_room)) sound
        | inr (off, given, behind, fit) ↦
            let real : off ≢ 0 = λ e. omega arith in
            let done = put_stored w g l row column type bytes off writable hr hc real given in
            let l1 = with_value-Layout w g l bytes off behind fit in
            let laid =
              with_field-Layout (with_value w bytes off) (plan_value g off (length bytes)) l1 row
                column type (blob_word off bytes) hr hc in
            subst (λ x. Sound x.0) (sym done)
              ((plan_value g off (length bytes), laid), writable, fits)
      ]
    ]
