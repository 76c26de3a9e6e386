-- ===== src/BackupHelpers/InOrder.antt =====
-- The snapshots that back_up_files of libs/androidfw/BackupHelpers.cpp compares are in the order of
-- their keys.
use f2ut_platform_frameworks.Prelude.{
  ◌%◌, Option-cases, Bool, Bool-cases, List, Option, [], drop, false, if◌then◌else◌, inl, inr, leb,
  length, ltb, none, not, some, suc, take, true, zero, ℕ, ◌+◌, ◌==◌, ◌>>=◌, ◌^◌, ◌∷◌, ◌≡◌, ◌||◌,
  subst,
}
use f2ut_platform_frameworks.BackupData.{Posix, le32_at}
use f2ut_platform_frameworks.BackupHelpers.{FileRec, FileState, magic0, magic1, round_up}
use f2ut_platform_frameworks.BackupHelpers.Keys.{Containers, IsSorted, Key, KeyOrder}
use f2ut_platform_frameworks.BackupHelpers.Snapshot.{
  read_and, read_files, read_name, read_snapshot_file, state_at,
}
use f2ut_platform_frameworks.BackupHelpers.Update.{FilePath, FileSystem}
use f2ut_platform_frameworks.BackupHelpers.Backup.{
  Built, Zlib, build_snapshot, built, crc_reads, file_rec, key_in_use, old_snapshot, undefined,
}

read_and_either {κ} :
    {A : Type 0} (P : A → Type κ) (sys : Posix) (pos n : ℕ) (file : List ℕ) (failed : A)
    (got : List ℕ → A)
    → P failed
    → ((bytes : List ℕ) → P (got bytes))
    → P (read_and sys pos n file failed got)
unfolding read_and
read_and_either P sys pos n file failed got h k =
    elim (sys.returns pos (if ltb (length file) n then length file else n))
      as (λ x. P (elim x [ none ↦ failed | some amt ↦ got (take amt file) ])) [
        | none ↦ h
        | some amt ↦ k (take amt file)
      ]

-- A snapshot that was read is in the order of its keys.
abbrev ReadSorted : KeyOrder → Option (List (Key × FileState) × ℕ) → Type 0
ReadSorted o none = Unit {0}
ReadSorted o (some (snapshot, err)) = IsSorted o snapshot

if_either {κ} :
    {A : Type 0} (P : A → Type κ) (b : Bool) (x y : A) → P x → P y → P (if b then x else y)
if_either P true x y h k = h
if_either P false x y h k = k

read_name-ReadSorted :
    (c : Containers) (sys : Posix) (state : FileState) (pos : ℕ) (file : List ℕ)
    (snapshot : List (Key × FileState))
    (next : ℕ → List ℕ → List (Key × FileState) → Option (List (Key × FileState) × ℕ))
    → IsSorted c.order snapshot
    → ((p : ℕ) (f : List ℕ) (m : List (Key × FileState))
        → IsSorted c.order m
        → ReadSorted c.order (next p f m))
    → ReadSorted c.order (read_name c sys state pos file snapshot next)
unfolding read_name
read_name-ReadSorted c sys state pos file snapshot next s later =
    if_either (ReadSorted c.order) (leb (2 ^ 31) state.name_len) _ _
      (if_either (ReadSorted c.order) (state.name_len % 4 == 0) (some (snapshot, 1)) none s tt)
      (if_either (ReadSorted c.order) (leb (2 ^ 31) (round_up state.name_len)) none _ tt (
        read_and_either (ReadSorted c.order) sys pos (round_up state.name_len) file
          (some (snapshot, 1)) _ s
          λ name.
            if_either (ReadSorted c.order) (length name == round_up state.name_len) _
              (some (snapshot, 1))
              (later (pos + round_up state.name_len) (drop (round_up state.name_len) file)
                (c.add_state (take state.name_len name) state snapshot)
                (c.add_state-IsSorted (take state.name_len name) state snapshot s))
              s))

read_files-ReadSorted :
    (c : Containers) (sys : Posix) (count total pos : ℕ) (file : List ℕ)
    (snapshot : List (Key × FileState))
    → IsSorted c.order snapshot
    → ReadSorted c.order (read_files c sys count total pos file snapshot)
unfolding read_files
read_files-ReadSorted c sys zero total pos file snapshot s = s
read_files-ReadSorted c sys (suc count) total pos file snapshot s =
    read_and_either (ReadSorted c.order) sys pos 24 file (some (snapshot, 1)) _ s λ bytes.
      if_either (ReadSorted c.order) (length bytes == 24) _ (some (snapshot, 1))
        (read_name-ReadSorted c sys (state_at bytes) (pos + 24) (drop 24 file) snapshot
          (read_files c sys count total) s (read_files-ReadSorted c sys count total))
        s

read_snapshot_file-ReadSorted :
    (c : Containers) (sys : Posix) (file : List ℕ)
    → ReadSorted c.order (read_snapshot_file c sys file)
unfolding read_snapshot_file
read_snapshot_file-ReadSorted c sys file =
    read_and_either (ReadSorted c.order) sys 0 16 file (some ([], sys.errno)) _ tt λ header.
      if_either (ReadSorted c.order) (not (length header == 16)) (some ([], sys.errno)) _ tt (
        if_either (ReadSorted c.order)
          (not (le32_at 0 header == magic0) || not (le32_at 8 header == magic1)) (some ([], 1)) _ tt
          (read_files-ReadSorted c sys
            (if ltb (le32_at 4 header) (2 ^ 31) then le32_at 4 header else 0) (le32_at 12 header) 16
            (drop 16 file) [] tt))

pub old_snapshot-IsSorted :
    (c : Containers) (sys : Posix) (file : Option (List ℕ)) (old : List (Key × FileState))
    → old_snapshot c sys file ≡ some old
    → IsSorted c.order old
unfolding old_snapshot
old_snapshot-IsSorted c sys none old e =
    let same : [] ≡ old = cc in subst (IsSorted c.order) same tt
old_snapshot-IsSorted c sys (some file) old e =
    after_read (read_snapshot_file c sys file) (read_snapshot_file-ReadSorted c sys file) e
  where
    after_read :
        (r : Option (List (Key × FileState) × ℕ))
        → ReadSorted c.order r
        → (r >>= λ (snapshot, err). some (if err == 0 then snapshot else [])) ≡ some old
        → IsSorted c.order old
    after_read none s e = cc
    after_read (some (snapshot, err)) s e =
        let same : (if err == 0 then snapshot else []) ≡ old = cc in
        subst (IsSorted c.order) same (if_either (IsSorted c.order) (err == 0) snapshot [] s tt)

abbrev pub BuiltSorted : KeyOrder → Built → Type 0
BuiltSorted o (built new) = IsSorted o new
BuiltSorted o key_in_use = Unit {0}
BuiltSorted o undefined = Unit {0}

pub build_snapshot-BuiltSorted :
    (c : Containers) (z : Zlib) (fs : FileSystem) (files : List (Key × FilePath))
    (new : List (Key × FileRec))
    → IsSorted c.order new
    → BuiltSorted c.order (build_snapshot c z fs files new)
unfolding build_snapshot
build_snapshot-BuiltSorted c z fs [] new s = s
build_snapshot-BuiltSorted c z fs ((key, path) ∷ files) new s =
    let skipped = build_snapshot-BuiltSorted c z fs files new s in
    elim (Option-cases (fs.stat path)) [
      | inl e ↦ rw (e, BuiltSorted, build_snapshot) skipped
      | inr (st, e) ↦ elim (Bool-cases (c.has_rec key new)) [
        | inl used ↦ rw (e, BuiltSorted, build_snapshot, used) tt
        | inr free ↦ elim (Option-cases (fs.open_file path)) [
          | inl shut ↦ rw (e, BuiltSorted, build_snapshot, free, shut) skipped
          | inr (f, open_) ↦ elim (Option-cases (crc_reads z f.reads z.crc_start)) [
            | inl bad ↦ rw (e, BuiltSorted, build_snapshot, free, open_, bad) tt
            | inr (crc, fine) ↦
                rw (e, BuiltSorted, build_snapshot, free, open_, fine)
                  (build_snapshot-BuiltSorted c z fs files
                    (c.add_rec key (file_rec z path st crc) new)
                    (c.add_rec-IsSorted key (file_rec z path st crc) new s))
          ]
        ]
      ]
    ]
