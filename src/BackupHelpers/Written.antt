-- ===== src/BackupHelpers/Written.antt =====
-- The bytes of a snapshot file and that write_snapshot_file of libs/androidfw/BackupHelpers.cpp
-- writes them.
use f2ut_platform_frameworks.Prelude.{
  Bool-cases, List, [], if◌then◌else◌, length, replicate, some, ℕ, ◌%◌, ◌+◌, ◌++◌, ◌==◌, ◌^◌, ◌∷◌,
  ap, arith, refl, sym, ◌∙◌, ◌≡◌, ◌<◌, true, inl, inr, take_all, ◌*◌, ◌/◌,
}
use mathlib.Core.List.{append_assoc, append-nil}
use f2ut_platform_frameworks.BackupData.{Posix, le32, le32_at, padding_extra}
use f2ut_platform_frameworks.BackupHelpers.{FileRec, FileState}
use f2ut_platform_frameworks.BackupHelpers.Keys.{Containers, Key}
use f2ut_platform_frameworks.BackupHelpers.Snapshot.{
  count_files, size_files, snapshot_header, state_at, state_bytes, write_or_fail, write_padding,
  write_records, write_snapshot_file,
}

-- What a snapshot keeps of a file: its state, with the length of its name.
abbrev pub kept_state : Key → FileRec → FileState
kept_state name r = record r.s { name_len = length name % 2 ^ 32 }

-- The snapshot with the files that were not deleted, added one by one.
unfoldable pub add_kept :
    Containers → List (Key × FileRec) → List (Key × FileState) → List (Key × FileState)
add_kept c [] snapshot = snapshot
add_kept c ((name, r) ∷ recs) snapshot =
    add_kept c recs (if r.deleted then snapshot else c.add_state name (kept_state name r) snapshot)

-- The numbers of a file are `int`s, and its name is not longer than an `int` can say.
abbrev pub IsSmall : Key → FileState → Type 0
IsSmall name s =
    (s.mod_time_sec < 2 ^ 32)
    × (s.mod_time_nsec < 2 ^ 32)
    × (s.mode < 2 ^ 32)
    × (s.size < 2 ^ 32)
    × (s.crc32 < 2 ^ 32)
    × (length name < 2 ^ 31)

abbrev pub AllSmall : List (Key × FileRec) → Type 0
AllSmall [] = Unit {0}
AllSmall ((name, r) ∷ recs) = IsSmall name r.s × AllSmall recs

abbrev pub record_bytes : Key → FileRec → List ℕ
record_bytes name r =
    state_bytes (kept_state name r) ++ (name ++ replicate (padding_extra (length name)) 0xab)

unfoldable pub records_bytes : List (Key × FileRec) → List ℕ
records_bytes [] = []
records_bytes ((name, r) ∷ recs) =
    if r.deleted then records_bytes recs else record_bytes name r ++ records_bytes recs

pub state_at-state_bytes :
    (s : FileState)
    → s.mod_time_sec < 2 ^ 32
    → s.mod_time_nsec < 2 ^ 32
    → s.mode < 2 ^ 32
    → s.size < 2 ^ 32
    → s.crc32 < 2 ^ 32
    → s.name_len < 2 ^ 32
    → state_at (state_bytes s) ≡ s
unfolding state_at state_bytes le32 le32_at
state_at-state_bytes s h0 h1 h2 h3 h4 h5 =
    let e : (v : ℕ)
        → v < 2 ^ 32
        → v % 256 + v / 256 % 256 * 256 + v / 65536 % 256 * 65536 + v / 16777216 % 256 * 16777216
          ≡ v =
      λ v h. omega arith in
    λ i. record {
      mod_time_sec = e s.mod_time_sec h0 i;
      mod_time_nsec = e s.mod_time_nsec h1 i;
      mode = e s.mode h2 i;
      size = e s.size h3 i;
      crc32 = e s.crc32 h4 i;
      name_len = e s.name_len h5 i;
    }

pub length-state_bytes : (s : FileState) → length (state_bytes s) ≡ 24
unfolding state_bytes le32
length-state_bytes s = refl

module _ (sys : Posix) (moves : (at n : ℕ) → sys.returns at n ≡ some n) where
  write_or_fail_whole :
      (bytes : List ℕ) (err : ℕ) (out : List ℕ) (rest : List ℕ → List ℕ × ℕ)
      → write_or_fail sys bytes err out rest ≡ rest (out ++ bytes)
  unfolding write_or_fail
  write_or_fail_whole bytes err out rest =
      let same : (length bytes == length bytes) ≡ true = ground arith in
      rw (moves (length out) (length bytes), write_or_fail)
        (rw (same, take_all (length bytes) bytes refl) refl)

  write_padding_whole :
      (n : ℕ) (out : List ℕ) (rest : List ℕ → List ℕ × ℕ)
      → write_padding sys n out rest ≡ rest (out ++ replicate (padding_extra n) 0xab)
  unfolding write_padding
  write_padding_whole n out rest = elim (Bool-cases (padding_extra n == 0)) [
    | inl zero_bytes ↦
        let nothing : padding_extra n ≡ 0 = ground arith in
        rw zero_bytes
          (ap rest (sym (append-nil out) ∙ ap (λ k. out ++ replicate k 0xab) (sym nothing)))
    | inr more ↦ rw more (write_or_fail_whole (replicate (padding_extra n) 0xab) 1 out rest)
  ]

  -- One file: its state, its name and the padding.
  write_record_whole :
      (name : Key) (r : FileRec) (out : List ℕ) (rest : List ℕ → List ℕ × ℕ)
      → write_or_fail sys
          (state_bytes (kept_state name r))
          1
          out
          (λ out. write_or_fail sys name 1 out (λ out. write_padding sys (length name) out rest))
        ≡ rest (out ++ record_bytes name r)
  write_record_whole name r out rest =
      let state = state_bytes (kept_state name r) in
      let pad = replicate (padding_extra (length name)) 0xab in
      let joined : ((out ++ state) ++ name) ++ pad ≡ out ++ record_bytes name r =
        simp append_assoc in
      write_or_fail_whole state 1 out
        (λ out. write_or_fail sys name 1 out (λ out. write_padding sys (length name) out rest))
      ∙ (write_or_fail_whole name 1 (out ++ state) (λ out. write_padding sys (length name) out rest)
          ∙ (write_padding_whole (length name) ((out ++ state) ++ name) rest ∙ ap rest joined))

  write_records_whole :
      (recs : List (Key × FileRec)) (out : List ℕ)
      → write_records sys recs out ≡ (out ++ records_bytes recs, 0)
  unfolding write_records records_bytes
  write_records_whole [] out = rw (append-nil out) refl
  write_records_whole ((name, r) ∷ recs) out = elim (Bool-cases r.deleted) [
    | inl gone ↦ simp gone (write_records_whole recs out)
    | inr there ↦
        let step = write_record_whole name r out (write_records sys recs) in
        let later = write_records_whole recs (out ++ record_bytes name r) in
        let joined : (out ++ record_bytes name r) ++ records_bytes recs
            ≡ out ++ (record_bytes name r ++ records_bytes recs) =
          simp append_assoc in
        simp there (step ∙ (later ∙ ap (λ bytes. (bytes, 0)) joined))
  ]

  pub write_snapshot_whole :
      (recs : List (Key × FileRec))
      → write_snapshot_file sys recs []
        ≡ (snapshot_header (count_files recs) (16 + size_files recs) ++ records_bytes recs, 0)
  unfolding write_snapshot_file
  write_snapshot_whole recs =
      write_or_fail_whole (snapshot_header (count_files recs) (16 + size_files recs)) sys.errno []
        (write_records sys recs)
      ∙ write_records_whole recs (snapshot_header (count_files recs) (16 + size_files recs))
