-- ===== src/BackupHelpers/Update.antt =====
-- What is sent for a file in libs/androidfw/BackupHelpers.cpp: write_delete_file and
-- write_update_file.
use f2ut_platform_frameworks.Prelude.{
  List, Option, [], if◌then◌else◌, length, ltb, none, not, replicate, some, suc, take, zero, ℕ, ◌+◌,
  ◌%◌, ◌++◌, ◌-◌, ◌==◌, ◌^◌, ◌∷◌, ◌||◌,
}
use f2ut_platform_frameworks.BackupData.{Posix, le32, widen}
use f2ut_platform_frameworks.BackupData.Writer.{
  BackupDataWriter, write_entity_data, write_entity_header,
}
use f2ut_platform_frameworks.BackupHelpers.Keys.{Key}

abbrev pub FilePath : Type 0
FilePath = List ℕ

-- The fields of `stat` that are used, as `int`s.
pub record Stat : Type 0 where
  pub mtime : ℕ
  pub mode : ℕ
  pub size : ℕ

-- A file that was opened: what lseek says to be its end, and what the calls of `read` deliver, one
-- after the other; `none` is -1, and behind the last one is the end of the file.
pub record OpenFile : Type 0 where
  pub size : ℕ
  pub reads : List (Option (List ℕ))

-- `none` is -1.
pub record FileSystem : Type 0 where
  pub stat : FilePath → Option Stat
  pub open_file : FilePath → Option OpenFile

unfoldable pub write_delete_file : Posix → Key → BackupDataWriter → BackupDataWriter × ℕ
write_delete_file sys key w = write_entity_header sys key (2 ^ 64 - 1) w

-- file_metadata_v1
unfoldable pub metadata : ℕ → List ℕ
metadata mode = le32 1 ++ (le32 mode ++ (le32 0 ++ le32 0))

-- How the loop over the file ends: with bytes left to send, with an error, or, after a read that
-- failed, by sending 2 ^ 64 - 1 bytes of a buffer of 4096.
pub data Sent : Type 0 where
  sent : BackupDataWriter → ℕ → Sent
  failed : BackupDataWriter → ℕ → Sent
  undefined : Sent

-- `while ((amt = read(fd, buf, bufsize)) != 0 && bytesLeft > 0)`; where bytesLeft becomes negative
-- only the log reads it, and it is 0 here.
unfoldable pub send_reads : Posix → List (Option (List ℕ)) → ℕ → BackupDataWriter → Sent
send_reads sys [] left w = sent w left
send_reads sys (none ∷ reads) left w = if ltb 0 left then undefined else sent w left
send_reads sys (some buf ∷ reads) left w =
    let (w', err) = write_entity_data sys (take left buf) w in
    let rest = send_reads sys reads (left - length buf) w' in
    if length buf == 0 || left == 0
    then sent w left
    else if not (err == 0)
    then failed w' err
    else rest

-- `while (bytesLeft > 0)`, on fuel: bytesLeft is enough.
unfoldable pub send_zeros : Posix → ℕ → ℕ → BackupDataWriter → BackupDataWriter × ℕ
send_zeros sys zero left w = (w, 0)
send_zeros sys (suc fuel) left w =
    let amt = if ltb left 4096 then left else 4096 in
    let (w', err) = write_entity_data sys (replicate amt 0) w in
    let rest = send_zeros sys fuel (left - amt) w' in
    if left == 0 then (w, 0) else if not (err == 0) then (w', err) else rest

-- What follows the loop.
unfoldable pub pad_sent : Posix → Sent → Option (BackupDataWriter × ℕ)
unfolding send_zeros
pad_sent sys (sent w left) = some (send_zeros sys left left w)
pad_sent sys (failed w err) = some (w, err)
pad_sent sys undefined = none

-- A number as an `int`, or 0 where that is negative.
unfoldable pub positive_int : ℕ → ℕ
positive_int n = if ltb (n % 2 ^ 32) (2 ^ 31) then n % 2 ^ 32 else 0

-- write_update_file of an open file; `none` is undefined. The size of the file and bytesLeft are
-- `int`s; where bytesLeft is negative from the start, no loop sends anything.
unfoldable pub update_open_file :
    Posix → OpenFile → ℕ → Key → BackupDataWriter → Option (BackupDataWriter × ℕ)
unfolding pad_sent send_reads
update_open_file sys f mode key w =
    let (w1, err1) = write_entity_header sys key (widen ((f.size + 16) % 2 ^ 32)) w in
    let (w2, err2) = write_entity_data sys (metadata mode) w1 in
    if not (err1 == 0)
    then some (w1, err1)
    else if not (err2 == 0)
    then some (w2, err2)
    else pad_sent sys (send_reads sys f.reads (positive_int f.size) w2)

-- write_update_file of a file by its name.
unfoldable pub update_file :
    Posix → FileSystem → Key → FilePath → BackupDataWriter → Option (BackupDataWriter × ℕ)
unfolding update_open_file
update_file sys fs key path w = elim (fs.stat path) [
  | none ↦ some (w, sys.errno)
  | some st ↦ elim (fs.open_file path) [
    | none ↦ some (w, sys.errno)
    | some f ↦ update_open_file sys f st.mode key w
  ]
]
