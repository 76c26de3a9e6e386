-- ===== src/BackupHelpers/Sending.antt =====
-- What back_up_files of libs/androidfw/BackupHelpers.cpp sends for the files of a backup.
use f2ut_platform_frameworks.Prelude.{List, Option, [], some, ℕ, ◌≡◌, subst}
use f2ut_platform_frameworks.BackupData.{Posix}
use f2ut_platform_frameworks.BackupData.Writer.{BackupDataWriter}
use f2ut_platform_frameworks.BackupHelpers.{FileRec, FileState}
use f2ut_platform_frameworks.BackupHelpers.Keys.{Containers, IsSorted, Key, lookup}
use f2ut_platform_frameworks.BackupHelpers.Snapshot.{write_snapshot_file}
use f2ut_platform_frameworks.BackupHelpers.Changes.{Change}
use f2ut_platform_frameworks.BackupHelpers.Lookup.{compare_snapshots-lookup}
use f2ut_platform_frameworks.BackupHelpers.Update.{FilePath, FileSystem, OpenFile}
use f2ut_platform_frameworks.BackupHelpers.Promise.{AllRead}
use f2ut_platform_frameworks.BackupHelpers.Asked.{Asks, Sends, change_of-Asks, send-Sends}
use f2ut_platform_frameworks.BackupHelpers.Backup.{
  Zlib, back_up_files, build_snapshot, built, old_snapshot, send_changes, senders,
}
use f2ut_platform_frameworks.BackupHelpers.InOrder.{
  old_snapshot-IsSorted, BuiltSorted, build_snapshot-BuiltSorted,
}

-- Where the old snapshot and the states of the files can be read, and no read of a file fails while
-- the files are sent, back_up_files writes the new snapshot and returns 0. There is a list of
-- changes, with one for each key that asks for it, in the order of the keys: a deletion for a key
-- that only the old snapshot has, a new file for one that only the new one has, and an update for one
-- that both have, if the times, the mode, the size or the checksum are not equal. The entity stream
-- is what these changes make of it, one after the other: an entity's header of size -1 for a
-- deletion, and for the others what write_update_file of the open file sends under the key, unless
-- the file can no longer be opened or, if it is new, no longer be found.
pub back_up_files-changes :
    (c : Containers) (sys : Posix) (z : Zlib) (before during : FileSystem)
    (old_file : Option (List ℕ)) (files : List (Key × FilePath)) (out : List ℕ)
    (w : BackupDataWriter) (old : List (Key × FileState)) (new : List (Key × FileRec))
    → old_snapshot c sys old_file ≡ some old
    → build_snapshot c z before files [] ≡ built new
    → ((path : FilePath) (f : OpenFile) → during.open_file path ≡ some f → AllRead f.reads)
    → (cs : List (Key × Change)) × (w' : BackupDataWriter) × IsSorted c.order cs
      × ((k : Key) → Asks (lookup c.order k old) (lookup c.order k new) (lookup c.order k cs))
      × Sends sys during cs w w'
      × (back_up_files c sys z before during old_file files out w
          ≡ some (w', (write_snapshot_file sys new out).0, 0))
unfolding back_up_files send_changes
back_up_files-changes c sys z before during old_file files out w old new read collected readable =
    let sorted_old = old_snapshot-IsSorted c sys old_file old read in
    let sorted_new =
      subst (BuiltSorted c.order) collected (build_snapshot-BuiltSorted c z before files [] tt) in
    let (cs, sorted, asked, made) =
      compare_snapshots-lookup (senders sys during) c.order old new (some w) sorted_old
        sorted_new in
    let (w', sent_all, sends) = send-Sends sys during readable cs w in
    (
      cs,
      w',
      sorted,
      (λ k. rw (asked k) (change_of-Asks (lookup c.order k old) (lookup c.order k new))),
      sends,
      simp (read, collected, made, sent_all),
    )
