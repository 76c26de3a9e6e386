-- ===== src/BackupHelpers.antt =====
-- libs/androidfw/BackupHelpers.cpp: the snapshot of the files of a backup, and what is sent for the
-- files that changed. A file is a list of bytes, an `int` its 32-bit pattern.
pub mod Keys
pub mod Snapshot
pub mod Written
pub mod ReadBack
pub mod RoundTrip
pub mod Update
pub mod Promise
pub mod Backup
pub mod Compare
pub mod Changes
pub mod Ascending
pub mod Lookup
pub mod InOrder
pub mod Asked
pub mod Sending
mod ByteKeys
pub mod Tests
use f2ut_platform_frameworks.Prelude.{Bool, List, ℕ, ◌+◌}
use f2ut_platform_frameworks.BackupData.{padding_extra}

-- MAGIC0 and MAGIC1, and the sizes of SnapshotHeader and FileState
abbrev pub magic0 : ℕ
magic0 = 0x70616e53

abbrev pub magic1 : ℕ
magic1 = 0x656c6946

abbrev pub sizeof_snapshot_header : ℕ
sizeof_snapshot_header = 16

abbrev pub sizeof_file_state : ℕ
sizeof_file_state = 24

-- round_up, on the table ROUND_UP
unfoldable pub round_up : ℕ → ℕ
round_up n = n + padding_extra n

pub record FileState : Type 0 where
  pub mod_time_sec : ℕ
  pub mod_time_nsec : ℕ
  pub mode : ℕ
  pub size : ℕ
  pub crc32 : ℕ
  pub name_len : ℕ

pub record FileRec : Type 0 where
  pub file : List ℕ
  pub deleted : Bool
  pub s : FileState
