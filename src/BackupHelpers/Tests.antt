-- ===== src/BackupHelpers/Tests.antt =====
-- Runs of libs/androidfw/BackupHelpers.cpp on two files.
use f2ut_platform_frameworks.Prelude.{
  subst, Bool, List, [], arith, false, if◌then◌else◌, length, none, refl, some, true, ℕ, ◌+◌, ◌==◌,
  ◌∷◌, ◌≡◌,
}
use f2ut_platform_frameworks.BackupData.{Posix, le32, le32_at, padding_extra}
use f2ut_platform_frameworks.BackupData.Format.{write_entities}
use f2ut_platform_frameworks.BackupData.Writer.{new_writer}
use f2ut_platform_frameworks.BackupHelpers.{FileRec, FileState, round_up}
use f2ut_platform_frameworks.BackupHelpers.Keys.{IsSorted, Key, lookup}
use f2ut_platform_frameworks.BackupHelpers.Snapshot.{
  count_files, read_and, read_files, read_name, read_snapshot_file, size_files, snapshot_header,
  state_at, state_bytes, write_or_fail, write_padding, write_records, write_snapshot_file,
}
use f2ut_platform_frameworks.BackupHelpers.Written.{add_kept}
use f2ut_platform_frameworks.BackupHelpers.RoundTrip.{read_snapshot_file-write_snapshot_file}
use f2ut_platform_frameworks.BackupHelpers.Changes.{Change}
use f2ut_platform_frameworks.BackupHelpers.Asked.{Asks, Sends}
use f2ut_platform_frameworks.BackupHelpers.ByteKeys.{byte_order, byte_vectors}
use f2ut_platform_frameworks.BackupHelpers.Update.{FilePath, FileSystem, OpenFile, update_open_file}
use f2ut_platform_frameworks.BackupHelpers.Backup.{
  Zlib, back_up_files, build_snapshot, built, crc_reads, file_rec, old_snapshot,
}
use f2ut_platform_frameworks.BackupData.Writer.{BackupDataWriter}
use f2ut_platform_frameworks.BackupHelpers.Promise.{
  AllRead, content, file_entity, update_open_file-write_entities,
}
use f2ut_platform_frameworks.BackupHelpers.Sending.{back_up_files-changes}

new_writer-fine : (new_writer 0).status ≡ 0
unfolding new_writer
new_writer-fine = refl

abbrev path_is_b : FilePath → Bool
path_is_b [] = false
path_is_b (c ∷ cs) = c == b'b'

-- Calls that move all bytes.
abbrev whole : Posix
whole = record {
  returns = λ at n. some n;
  errno = 0;
  seekable = λ at. true;
  lock_buffer = λ n. true;
  eio = 5;
  einval = 22;
  enomem = 12;
}

abbrev state_of : ℕ → FileState
state_of crc = record {
  mod_time_sec = 7;
  mod_time_nsec = 0;
  mode = 420;
  size = 3;
  crc32 = crc;
  name_len = 1;
}

abbrev rec_of : ℕ → FileRec
rec_of crc = record { file = b'/' ∷ []; deleted = false; s = state_of crc }

-- Two files, a and b.
abbrev two_files : List (Key × FileRec)
two_files = (b'a' ∷ [], rec_of 5) ∷ (b'b' ∷ [], rec_of 6) ∷ []

two_files-size : 16 + size_files two_files ≡ 72
unfolding size_files round_up padding_extra
two_files-size = refl

read_snapshot_file-write_snapshot_file_example :
    ((write_snapshot_file whole two_files []).1 ≡ 0)
    × (read_snapshot_file byte_vectors whole (write_snapshot_file whole two_files []).0
        ≡ some (add_kept byte_vectors two_files [], 0))
read_snapshot_file-write_snapshot_file_example =
    read_snapshot_file-write_snapshot_file byte_vectors whole two_files (λ at n. refl) (omega arith)
      (omega (arith, two_files-size))

-- A file that says that it has 6 bytes, of which 3 are left when it is read.
abbrev shrunk : OpenFile
shrunk = record { size = 6; reads = some (1 ∷ 2 ∷ 3 ∷ []) ∷ [] }

update_open_file-write_entities_example :
    (update_open_file whole shrunk 420 (b'b' ∷ []) (new_writer 0)
      ≡ some (write_entities whole (file_entity shrunk 420 (b'b' ∷ []) ∷ []) (new_writer 0), 0))
    × (length (content 6 shrunk.reads) ≡ 6)
update_open_file-write_entities_example =
    update_open_file-write_entities whole shrunk 420 (b'b' ∷ []) (new_writer 0) (λ at n. refl) tt
      new_writer-fine (omega arith)

-- A sum for a checksum.
abbrev sums : Zlib
sums = record { crc32 = λ crc bytes. crc + length bytes; crc_start = 0; unset = 0 }

-- Only the file b is there, and has changed.
abbrev only_b : FileSystem
only_b = record {
  stat = λ path. if path_is_b path then some (record { mtime = 8; mode = 420; size = 6 }) else none;
  open_file = λ path. some shrunk;
}

abbrev old_states : List (Key × FileState)
old_states = (b'a' ∷ [], state_of 5) ∷ (b'b' ∷ [], state_of 6) ∷ []

abbrev new_states : List (Key × FileRec)
new_states =
    (b'b' ∷ [], file_rec sums (b'b' ∷ []) (record { mtime = 8; mode = 420; size = 6 }) 3) ∷ []

old_read :
    old_snapshot byte_vectors whole (some (write_snapshot_file whole two_files []).0)
    ≡ some old_states
unfolding old_snapshot read_snapshot_file read_files read_name read_and write_snapshot_file
    write_records write_or_fail write_padding snapshot_header state_bytes state_at count_files
    size_files round_up padding_extra le32 le32_at
old_read = refl

new_built :
    build_snapshot byte_vectors sums only_b
      ((b'a' ∷ [], b'a' ∷ []) ∷ (b'b' ∷ [], b'b' ∷ []) ∷ [])
      []
    ≡ built new_states
unfolding build_snapshot crc_reads file_rec
new_built = refl

only_b-AllRead : (path : List ℕ) (f : OpenFile) → only_b.open_file path ≡ some f → AllRead f.reads
only_b-AllRead path f e = let same : shrunk ≡ f = cc in subst (λ f. AllRead f.reads) same tt

-- The file a is gone, and b is sent.
back_up_files-changes_example :
    (cs : List (Key × Change)) × (w' : BackupDataWriter) × IsSorted byte_order cs
    × ((k : Key)
        → Asks
            (lookup byte_order k old_states)
            (lookup byte_order k new_states)
            (lookup byte_order k cs))
    × Sends whole only_b cs (new_writer 0) w'
    × (back_up_files byte_vectors whole sums only_b only_b
          (some (write_snapshot_file whole two_files []).0)
          ((b'a' ∷ [], b'a' ∷ []) ∷ (b'b' ∷ [], b'b' ∷ []) ∷ [])
          []
          (new_writer 0)
        ≡ some (w', (write_snapshot_file whole new_states []).0, 0))
back_up_files-changes_example =
    back_up_files-changes byte_vectors whole sums only_b only_b
      (some (write_snapshot_file whole two_files []).0)
      ((b'a' ∷ [], b'a' ∷ []) ∷ (b'b' ∷ [], b'b' ∷ []) ∷ []) [] (new_writer 0) old_states new_states
      old_read new_built only_b-AllRead
