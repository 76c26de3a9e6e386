-- ===== src/BackupHelpers/Snapshot.antt =====
-- The snapshot file of libs/androidfw/BackupHelpers.cpp: write_snapshot_file and
-- read_snapshot_file. `write` and `read` answer as Posix says, and malloc gets its memory. A number
-- is an `int` of 32 bits.
use f2ut_platform_frameworks.Prelude.{
  List, Option, [], drop, if◌then◌else◌, leb, length, ltb, none, not, replicate, some, suc, take,
  zero, ℕ, ◌%◌, ◌+◌, ◌++◌, ◌==◌, ◌^◌, ◌∷◌, ◌||◌,
}
use f2ut_platform_frameworks.BackupData.{Posix, le32, le32_at, padding_extra}
use f2ut_platform_frameworks.BackupHelpers.{
  FileRec, FileState, magic0, magic1, round_up, sizeof_file_state, sizeof_snapshot_header,
}
use f2ut_platform_frameworks.BackupHelpers.Keys.{Containers, Key}

unfoldable pub state_bytes : FileState → List ℕ
state_bytes s =
    le32 s.mod_time_sec
    ++ (le32 s.mod_time_nsec ++ (le32 s.mode ++ (le32 s.size ++ (le32 s.crc32 ++ le32 s.name_len))))

unfoldable pub state_at : List ℕ → FileState
state_at bytes = record {
  mod_time_sec = le32_at 0 bytes;
  mod_time_nsec = le32_at 4 bytes;
  mode = le32_at 8 bytes;
  size = le32_at 12 bytes;
  crc32 = le32_at 16 bytes;
  name_len = le32_at 20 bytes;
}

-- SnapshotHeader
unfoldable pub snapshot_header : ℕ → ℕ → List ℕ
snapshot_header file_count total_size =
    le32 magic0 ++ (le32 file_count ++ (le32 magic1 ++ le32 total_size))

-- The two sums of the first loop.
unfoldable pub count_files : List (Key × FileRec) → ℕ
count_files [] = 0
count_files ((name, g) ∷ recs) = (if g.deleted then 0 else 1) + count_files recs

unfoldable pub size_files : List (Key × FileRec) → ℕ
size_files [] = 0
size_files ((name, g) ∷ recs) =
    (if g.deleted then 0 else sizeof_file_state + round_up (length name)) + size_files recs

-- `write` to the file `out`, the return of `err` if it was not whole, and else what follows.
unfoldable pub write_or_fail : Posix → List ℕ → ℕ → List ℕ → (List ℕ → List ℕ × ℕ) → List ℕ × ℕ
write_or_fail sys bytes err out rest = elim (sys.returns (length out) (length bytes)) [
  | none ↦ (out, err)
  | some amt ↦
      if amt == length bytes then rest (out ++ take amt bytes) else (out ++ take amt bytes, err)
]

-- `if (paddingLen != 0)`
unfoldable pub write_padding : Posix → ℕ → List ℕ → (List ℕ → List ℕ × ℕ) → List ℕ × ℕ
write_padding sys name_len out rest =
    if not (padding_extra name_len == 0)
    then write_or_fail sys (replicate (padding_extra name_len) 0xab) 1 out rest
    else rest out

unfoldable pub write_records : Posix → List (Key × FileRec) → List ℕ → List ℕ × ℕ
write_records sys [] out = (out, 0)
write_records sys ((name, r) ∷ recs) out =
    let skipped = write_records sys recs out in
    let written =
      write_or_fail sys (state_bytes (record r.s { name_len = length name % 2 ^ 32 })) 1 out λ out.
        write_or_fail sys name 1 out
          λ out. write_padding sys (length name) out (write_records sys recs) in
    if r.deleted then skipped else written

unfoldable pub write_snapshot_file : Posix → List (Key × FileRec) → List ℕ → List ℕ × ℕ
write_snapshot_file sys recs out =
    let header = snapshot_header (count_files recs) (sizeof_snapshot_header + size_files recs) in
    write_or_fail sys header sys.errno out (write_records sys recs)

-- `amt = read(fd, buf, n)`: what is done with -1 and with the bytes that come.
unfoldable pub read_and : {A : Type 0} → Posix → ℕ → ℕ → List ℕ → A → (List ℕ → A) → A
read_and sys pos n file failed got =
    elim (sys.returns pos (if ltb (length file) n then length file else n)) [
      | none ↦ failed
      | some amt ↦ got (take amt file)
    ]

-- A file's name, behind its state. For a negative length that is no multiple of 4 the table ROUND_UP
-- is read in front of its start, and near 2 ^ 31 its entry overflows the `int`: both are `none`. For
-- the other negative lengths the size of the read is above SSIZE_MAX, and it fails.
unfoldable pub read_name :
    Containers
    → Posix
    → FileState
    → ℕ
    → List ℕ
    → List (Key × FileState)
    → (ℕ → List ℕ → List (Key × FileState) → Option (List (Key × FileState) × ℕ))
    → Option (List (Key × FileState) × ℕ)
read_name c sys state pos file snapshot next =
    let size = round_up state.name_len in
    let named = read_and sys pos size file (some (snapshot, 1)) λ name.
      if length name == size
      then next (pos + size) (drop size file)
          (c.add_state (take state.name_len name) state snapshot)
      else some (snapshot, 1) in
    if leb (2 ^ 31) state.name_len
    then if state.name_len % 4 == 0 then some (snapshot, 1) else none
    else if leb (2 ^ 31) size
    then none
    else named

-- The loop over the files, from the position `pos`, which is bytesRead.
unfoldable pub read_files :
    Containers
    → Posix
    → ℕ
    → ℕ
    → ℕ
    → List ℕ
    → List (Key × FileState)
    → Option (List (Key × FileState) × ℕ)
read_files c sys zero total pos file snapshot =
    some (snapshot, if total == pos % 2 ^ 32 then 0 else 1)
read_files c sys (suc count) total pos file snapshot =
    read_and sys pos sizeof_file_state file (some (snapshot, 1)) λ bytes.
      if length bytes == sizeof_file_state
      then read_name c sys (state_at bytes) (pos + sizeof_file_state) (drop sizeof_file_state file)
          snapshot (read_files c sys count total)
      else some (snapshot, 1)

unfoldable pub read_snapshot_file :
    Containers → Posix → List ℕ → Option (List (Key × FileState) × ℕ)
unfolding read_files
read_snapshot_file c sys file =
    read_and sys 0 sizeof_snapshot_header file (some ([], sys.errno)) λ header.
      if not (length header == sizeof_snapshot_header)
      then some ([], sys.errno)
      else if not (le32_at 0 header == magic0) || not (le32_at 8 header == magic1)
      then some ([], 1)
      else (let count = le32_at 4 header in
          read_files c sys (if ltb count (2 ^ 31) then count else 0) (le32_at 12 header)
            sizeof_snapshot_header (drop sizeof_snapshot_header file) [])
