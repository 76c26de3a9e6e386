-- ===== src/BackupHelpers/Backup.antt =====
-- back_up_files of libs/androidfw/BackupHelpers.cpp. The files may change between the loop that
-- takes their states and the one that sends them: each has a FileSystem of its own.
use f2ut_platform_frameworks.Prelude.{
  List, Option, [], false, true, if◌then◌else◌, length, none, some, ℕ, ◌-◌, ◌==◌, ◌>>=◌, ◌^◌, ◌∷◌,
}
use f2ut_platform_frameworks.BackupData.{Posix}
use f2ut_platform_frameworks.BackupData.Writer.{BackupDataWriter}
use f2ut_platform_frameworks.BackupHelpers.{FileRec, FileState}
use f2ut_platform_frameworks.BackupHelpers.Keys.{Containers, Key, KeyOrder}
use f2ut_platform_frameworks.BackupHelpers.Snapshot.{read_snapshot_file, write_snapshot_file}
use f2ut_platform_frameworks.BackupHelpers.Compare.{Handlers, compare_snapshots}
use f2ut_platform_frameworks.BackupHelpers.Update.{
  FilePath, FileSystem, Stat, update_file, update_open_file, write_delete_file,
}

-- zlib's crc32, its value for no bytes, and what an `int` holds that is not set.
pub record Zlib : Type 0 where
  pub crc32 : ℕ → List ℕ → ℕ
  pub crc_start : ℕ
  pub unset : ℕ

-- The loop of compute_crc32; after a read that failed it takes 2 ^ 32 - 1 bytes of a buffer of 4096,
-- which is `none`.
unfoldable pub crc_reads : Zlib → List (Option (List ℕ)) → ℕ → Option ℕ
crc_reads z [] crc = some crc
crc_reads z (none ∷ reads) crc = none
crc_reads z (some buf ∷ reads) crc =
    let rest = crc_reads z reads (z.crc32 crc buf) in if length buf == 0 then some crc else rest

unfoldable pub file_rec : Zlib → FilePath → Stat → ℕ → FileRec
file_rec z path st crc = record {
  file = path;
  deleted = false;
  s = record {
    mod_time_sec = st.mtime;
    mod_time_nsec = 0;
    mode = st.mode;
    size = st.size;
    crc32 = crc;
    name_len = z.unset;
  };
}

pub data Built : Type 0 where
  built : List (Key × FileRec) → Built
  key_in_use : Built
  undefined : Built

-- The first loop; compute_crc32 fails where the file does not open.
unfoldable pub build_snapshot :
    Containers → Zlib → FileSystem → List (Key × FilePath) → List (Key × FileRec) → Built
build_snapshot c z fs [] new = built new
build_snapshot c z fs ((key, path) ∷ files) new = elim (fs.stat path) [
  | none ↦ build_snapshot c z fs files new
  | some st ↦ elim (c.has_rec key new) [
    | true ↦ key_in_use
    | false ↦ elim (fs.open_file path) [
      | none ↦ build_snapshot c z fs files new
      | some f ↦ elim (crc_reads z f.reads z.crc_start) [
        | none ↦ undefined
        | some crc ↦ build_snapshot c z fs files (c.add_rec key (file_rec z path st crc) new)
      ]
    ]
  ]
]

-- The calls of the comparison; their statuses are dropped. `none` is undefined.
unfoldable pub senders : Posix → FileSystem → Handlers (Option BackupDataWriter)
senders sys fs = record {
  removed = λ key s. s >>= λ w. some (write_delete_file sys key w).0;
  added = λ key g s. s >>= λ w. update_file sys fs key g.file w >>= λ (w', err). some w';
  changed = λ key g s. s >>= λ w. elim (fs.open_file g.file) [
    | none ↦ some w
    | some f ↦ update_open_file sys f g.s.mode key w >>= λ (w', err). some w'
  ];
}

-- The old snapshot, with no file for a descriptor of -1, and nothing in it after an error.
unfoldable pub old_snapshot : Containers → Posix → Option (List ℕ) → Option (List (Key × FileState))
old_snapshot c sys none = some []
old_snapshot c sys (some file) =
    read_snapshot_file c sys file >>= λ (snapshot, err). some (if err == 0 then snapshot else [])

-- What is left to do with the snapshots: the comparison and the new file. The result is the entity
-- stream, the file of the new snapshot, and what is returned.
unfoldable pub send_changes :
    Posix
    → KeyOrder
    → FileSystem
    → List (Key × FileState)
    → List (Key × FileRec)
    → List ℕ
    → BackupDataWriter
    → Option (BackupDataWriter × List ℕ × ℕ)
send_changes sys o fs old new out w =
    compare_snapshots (senders sys fs) o old new (some w) >>= λ w'.
    some (w', (write_snapshot_file sys new out).0, 0)

unfoldable pub back_up_files :
    Containers
    → Posix
    → Zlib
    → (before during : FileSystem) → Option (List ℕ)
    → List (Key × FilePath)
    → List ℕ
    → BackupDataWriter
    → Option (BackupDataWriter × List ℕ × ℕ)
unfolding send_changes old_snapshot build_snapshot
back_up_files c sys z before during old_file files out w = old_snapshot c sys old_file >>= λ old.
    elim (build_snapshot c z before files []) [
      | built new ↦ send_changes sys c.order during old new out w
      | key_in_use ↦ some (w, out, 2 ^ 32 - 1)
      | undefined ↦ none
    ]
