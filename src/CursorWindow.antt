-- ===== src/CursorWindow.antt =====
-- CursorWindow of libs/androidfw/CursorWindow.cpp and include/androidfw/CursorWindow.h: rows of
-- fields in a block of shared memory. An offset into the window is a number below 2 ^ 32, memory a
-- function from offsets to bytes; the four words of the header are fields of the state. The
-- sharing of the memory with other processes (ashmem, mmap, Parcel) is not modelled.
pub mod Memory
pub mod Layout
pub mod Fields
pub mod Put
pub mod Chunks
pub mod Growth
pub mod Cut
pub mod Extend
pub mod Directory
pub mod Slots
pub mod Rows
pub mod Blob
pub mod Stored
pub mod Wrap
pub mod Sound
pub mod Reach
pub mod Tests
use f2ut_platform_frameworks.Prelude.{
  Bool, List, Option, [], false, if◌then◌else◌, leb, length, ltb, none, not, some, suc, true, zero,
  ℕ, ◌%◌, ◌&&◌, ◌*◌, ◌+◌, ◌-◌, ◌/◌, ◌==◌, ◌^◌, ◌∷◌, ◌||◌, ◌>>=◌,
}
use f2ut_platform_frameworks.CursorWindow.Memory.{
  fill, read32, read64, write32, write64, write_bytes,
}

-- FIELD_TYPE_NULL, FIELD_TYPE_INTEGER, FIELD_TYPE_FLOAT, FIELD_TYPE_STRING, FIELD_TYPE_BLOB
abbrev field_type_null : ℕ
field_type_null = 0

abbrev field_type_integer : ℕ
field_type_integer = 1

abbrev field_type_float : ℕ
field_type_float = 2

abbrev field_type_string : ℕ
field_type_string = 3

abbrev field_type_blob : ℕ
field_type_blob = 4

-- ROW_SLOT_CHUNK_NUM_ROWS, and the sizes of Header, RowSlotChunk and FieldSlot
abbrev row_slot_chunk_num_rows : ℕ
row_slot_chunk_num_rows = 100

abbrev sizeof_header : ℕ
sizeof_header = 16

abbrev sizeof_chunk : ℕ
sizeof_chunk = 404

abbrev sizeof_field : ℕ
sizeof_field = 12

pub record CursorWindow : Type 0 where
  pub size : ℕ
  pub read_only : Bool
  pub free_offset : ℕ
  pub first_chunk_offset : ℕ
  pub num_rows : ℕ
  pub num_columns : ℕ
  pub mem : ℕ → ℕ

pub data Status : Type 0 where
  ok invalid_operation no_memory bad_value : Status
  -- The fuel of a loop ran out.
  looping : Status

-- chunk->nextChunkOffset
abbrev pub next_chunk : (ℕ → ℕ) → ℕ → ℕ
next_chunk m chunk = read32 m (chunk + 400)

unfoldable pub clear : CursorWindow → CursorWindow × Status
clear w = if w.read_only then (w, invalid_operation) else (
  record w {
    free_offset = sizeof_header + sizeof_chunk;
    first_chunk_offset = sizeof_header;
    num_rows = 0;
    num_columns = 0;
    mem = write32 (sizeof_header + 400) 0 w.mem;
  },
  ok,
)

unfoldable pub set_num_columns : ℕ → CursorWindow → CursorWindow × Status
set_num_columns num_columns w =
    if w.read_only
    then (w, invalid_operation)
    else if (ltb 0 w.num_columns || ltb 0 w.num_rows) && not (w.num_columns == num_columns)
    then (w, invalid_operation)
    else (record w { num_columns = num_columns }, ok)

-- The padding of `alloc`: (~freeOffset + 1) & 3 if aligned.
unfoldable pub padding : Bool → ℕ → ℕ
padding aligned free = if aligned then (2 ^ 32 - free % 2 ^ 32) % 4 else 0

-- The sums are cut to 32 bits; 0 if the window is full.
unfoldable pub alloc : ℕ → Bool → CursorWindow → CursorWindow × ℕ
alloc size aligned w =
    let offset = (w.free_offset + padding aligned w.free_offset) % 2 ^ 32 in
    let next_free = (offset + size) % 2 ^ 32 in
    if ltb w.size next_free then (w, 0) else (record w { free_offset = next_free }, offset)

-- `while (chunkPos >= bound)` along the chunks: the chunk and the position where it stops.
unfoldable pub walk_chunks : ℕ → ℕ → ℕ → ℕ → (ℕ → ℕ) → Option (ℕ × ℕ)
walk_chunks zero bound pos chunk m = none
walk_chunks (suc fuel) bound pos chunk m =
    let further = walk_chunks fuel bound (pos - row_slot_chunk_num_rows) (next_chunk m chunk) m in
    if leb bound pos then further else some (chunk, pos)

-- A default for `none`, and what is done with a value.
abbrev pub given {ℓ κ} : {A : Type ℓ} {B : Type κ} → Option A → B → (A → B) → B
given none d f = d
given (some a) d f = f a

-- The offset of the row's slot; `none` if the fuel runs out.
unfoldable pub get_row_slot : ℕ → CursorWindow → Option ℕ
get_row_slot row w = do
  (chunk, pos) ← walk_chunks (suc row) row_slot_chunk_num_rows row w.first_chunk_offset w.mem
  some (chunk + 4 * pos)

-- The row slot, or 0 for NULL.
unfoldable pub take_slot : ℕ → ℕ → CursorWindow → CursorWindow × ℕ
take_slot chunk pos w = (record w { num_rows = w.num_rows + 1 }, chunk + 4 * pos)

-- The first slot of the next chunk, which ends the list of chunks.
unfoldable pub open_chunk : ℕ → CursorWindow → CursorWindow × ℕ
unfolding take_slot
open_chunk chunk w = take_slot chunk 0 (record w { mem = write32 (chunk + 400) 0 w.mem })

-- What `allocRowSlot` does where its loop stops.
unfoldable pub slot_in : ℕ → ℕ → CursorWindow → CursorWindow × ℕ
unfolding open_chunk take_slot
slot_in chunk pos w =
    if pos == row_slot_chunk_num_rows
    then (if next_chunk w.mem chunk == 0
        then (let (w1, fresh) = alloc sizeof_chunk true w in
            let w2 = record w1 { mem = write32 (chunk + 400) fresh w1.mem } in
            if fresh == 0 then (w2, 0) else open_chunk fresh w2)
        else open_chunk (next_chunk w.mem chunk) w)
    else take_slot chunk pos w

unfoldable pub alloc_row_slot : CursorWindow → Option (CursorWindow × ℕ)
unfolding slot_in
alloc_row_slot w = do
  (chunk, pos) ←
      walk_chunks (suc w.num_rows) (row_slot_chunk_num_rows + 1) w.num_rows w.first_chunk_offset
        w.mem
  some (slot_in chunk pos w)

-- The field directory of the row whose slot was taken.
unfoldable pub alloc_directory : CursorWindow × ℕ → CursorWindow × Status
alloc_directory (w1, slot) =
    if slot == 0
    then (w1, no_memory)
    else (let dir_size = w1.num_columns * sizeof_field in
        let (w2, dir) = alloc dir_size true w1 in
        if dir == 0
        then (record w2 { num_rows = w2.num_rows - 1 }, no_memory)
        else (record w2 { mem = write32 slot dir (fill dir dir_size w2.mem) }, ok))

unfoldable pub alloc_row : CursorWindow → CursorWindow × Status
unfolding alloc_directory
alloc_row w =
    if w.read_only
    then (w, invalid_operation)
    else given (alloc_row_slot w) (w, looping) alloc_directory

unfoldable pub free_last_row : CursorWindow → CursorWindow × Status
free_last_row w =
    if w.read_only
    then (w, invalid_operation)
    else (record w { num_rows = if ltb 0 w.num_rows then w.num_rows - 1 else w.num_rows }, ok)

-- The offset of the field's slot; NULL, and a loop without end, is `none`.
unfoldable pub get_field_slot : ℕ → ℕ → CursorWindow → Option ℕ
get_field_slot row column w =
    if leb w.num_rows row || leb w.num_columns column
    then none
    else (do slot ← get_row_slot row w; some (read32 w.mem slot + column * sizeof_field))

-- A field's type and the 8 bytes of its union.
unfoldable pub write_field : ℕ → ℕ → ℕ → (ℕ → ℕ) → ℕ → ℕ
write_field slot type value m = write64 (slot + 4) value (write32 slot type m)

-- The frame of putLong, putDouble and putNull.
unfoldable pub put_field : ℕ → ℕ → ℕ → ℕ → CursorWindow → CursorWindow × Status
put_field row column type value w =
    if w.read_only
    then (w, invalid_operation)
    else given (get_field_slot row column w) (w, bad_value)
        λ slot. (record w { mem = write_field slot type value w.mem }, ok)

-- A long, and the bits of a double, are 64-bit patterns.
unfoldable put_long : ℕ → ℕ → ℕ → CursorWindow → CursorWindow × Status
unfolding put_field
put_long row column value w = put_field row column field_type_integer value w

unfoldable put_double : ℕ → ℕ → ℕ → CursorWindow → CursorWindow × Status
unfolding put_field
put_double row column value w = put_field row column field_type_float value w

unfoldable put_null : ℕ → ℕ → CursorWindow → CursorWindow × Status
unfolding put_field
put_null row column w = put_field row column field_type_null 0 w

-- The size that is stored is cut to 32 bits.
unfoldable pub put_blob_or_string : ℕ → ℕ → List ℕ → ℕ → CursorWindow → CursorWindow × Status
put_blob_or_string row column value type w =
    if w.read_only
    then (w, invalid_operation)
    else given (get_field_slot row column w) (w, bad_value)
        λ slot.
          let (w1, offset) = alloc (length value) false w in
          if offset == 0 then (w1, no_memory) else (
            record w1 {
              mem =
                  write_field slot type (offset + length value % 2 ^ 32 * 2 ^ 32)
                    (write_bytes offset value w1.mem);
            },
            ok,
          )

unfoldable put_blob : ℕ → ℕ → List ℕ → CursorWindow → CursorWindow × Status
unfolding put_blob_or_string
put_blob row column value w = put_blob_or_string row column value field_type_blob w

unfoldable put_string : ℕ → ℕ → List ℕ → CursorWindow → CursorWindow × Status
unfolding put_blob_or_string
put_string row column value w = put_blob_or_string row column value field_type_string w

-- getFieldSlotType, getFieldSlotValueLong, getFieldSlotValueBlob: the last gives the offset and the
-- size.
unfoldable pub field_slot_type : CursorWindow → ℕ → ℕ
field_slot_type w slot = read32 w.mem slot

unfoldable pub field_slot_value_long : CursorWindow → ℕ → ℕ
field_slot_value_long w slot = read64 w.mem (slot + 4)

unfoldable field_slot_value_blob : CursorWindow → ℕ → ℕ × ℕ
field_slot_value_blob w slot = (read32 w.mem (slot + 4), read32 w.mem (slot + 8))
