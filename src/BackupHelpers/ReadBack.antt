-- ===== src/BackupHelpers/ReadBack.antt =====
-- Reading the files of a snapshot file (libs/androidfw/BackupHelpers.cpp, read_snapshot_file).
use f2ut_platform_frameworks.Prelude.{
  subst, Bool-cases, List, Option, [], drop-append, take-append, if◌then◌else◌, leb, length,
  length-append, length-replicate, ltb, replicate, some, suc, take, ℕ, ◌%◌, ◌+◌, ◌++◌, ◌==◌, ◌^◌,
  ◌∷◌, arith, refl, sym, ◌∙◌, ◌≡◌, ◌<◌, ◌≤◌, true, false, inl, inr,
}
use mathlib.Core.List.{append_assoc}
use f2ut_platform_frameworks.BackupData.{Posix, padding_extra}
use f2ut_platform_frameworks.BackupHelpers.{sizeof_file_state, FileRec, FileState, round_up}
use f2ut_platform_frameworks.BackupHelpers.Keys.{Containers, Key}
use f2ut_platform_frameworks.BackupHelpers.Snapshot.{
  count_files, read_and, read_name, read_files, size_files, state_bytes,
}
use f2ut_platform_frameworks.BackupHelpers.Written.{
  kept_state, add_kept, IsSmall, AllSmall, record_bytes, records_bytes, state_at-state_bytes,
  length-state_bytes,
}

module _ (sys : Posix) (moves : (at n : ℕ) → sys.returns at n ≡ some n) where
  -- A read of bytes that are there gives them.
  pub read_and_whole :
      {A : Type 0} (pos n : ℕ) (file : List ℕ)
      → n ≤ length file
      → (failed : A) (got : List ℕ → A) → read_and sys pos n file failed got ≡ got (take n file)
  unfolding read_and
  read_and_whole pos n file h failed got =
      let enough : ltb (length file) n ≡ false = ground arith in
      rw (enough, moves pos n, read_and) refl

  read_name_whole :
      (c : Containers) (s : FileState) (pos : ℕ) (name tail : List ℕ)
      (snapshot : List (Key × FileState))
      (next : ℕ → List ℕ → List (Key × FileState) → Option (List (Key × FileState) × ℕ))
      → s.name_len ≡ length name
      → length name < 2 ^ 31
      → round_up (length name) < 2 ^ 31
      → read_name c sys s pos
          ((name ++ replicate (padding_extra (length name)) 0xab) ++ tail)
          snapshot
          next
        ≡ next (pos + round_up (length name)) tail (c.add_state name s snapshot)
  unfolding read_name round_up
  read_name_whole c s pos name tail snapshot next e small narrow =
      let pad : List ℕ = replicate (padding_extra (length name)) 0xab in
      let sized : length name + padding_extra (length name) ≡ length (name ++ pad) = omega (
        arith,
        length-append {0} name pad,
        length-replicate {A = ℕ} (padding_extra (length name)) 0xab,
      ) in
      let negative : leb (2 ^ 31) (length name) ≡ false = ground arith in
      let wide : leb (2 ^ 31) (length name + padding_extra (length name)) ≡ false = ground arith in
      let enough : length name + padding_extra (length name) ≤ length ((name ++ pad) ++ tail) =
        omega (arith, sized, length-append {0} (name ++ pad) tail) in
      let read =
        read_and_whole {A = Option (List (Key × FileState) × ℕ)} pos
          (length name + padding_extra (length name)) ((name ++ pad) ++ tail) enough in
      let front =
        take-append (length name + padding_extra (length name)) (name ++ pad) tail sized in
      let back = drop-append (length name + padding_extra (length name)) (name ++ pad) tail sized in
      let whole_name : (length (name ++ pad) == length name + padding_extra (length name)) ≡ true =
        ground (arith, sized) in
      let own = take-append (length name) name pad refl in
      simp (e, negative, wide, read, front, whole_name, back, own)

  read_file_whole :
      (c : Containers) (count total pos : ℕ) (name : Key) (r : FileRec) (tail : List ℕ)
      (snapshot : List (Key × FileState))
      → IsSmall name r.s
      → round_up (length name) < 2 ^ 31
      → read_files c sys (suc count) total pos (record_bytes name r ++ tail) snapshot
        ≡ read_files c sys count total
            (pos + 24 + round_up (length name))
            tail
            (c.add_state name (kept_state name r) snapshot)
  unfolding read_files
  read_file_whole c count total pos name r tail snapshot (h0, h1, h2, h3, h4, h5) narrow =
      let state = kept_state name r in
      let named : List ℕ = name ++ replicate (padding_extra (length name)) 0xab in
      let parts : record_bytes name r ++ tail ≡ state_bytes state ++ (named ++ tail) =
        simp append_assoc in
      let size = length-state_bytes state in
      let enough : 24 ≤ length (state_bytes state ++ (named ++ tail)) =
        omega (arith, size, length-append {0} (state_bytes state) (named ++ tail)) in
      let read =
        read_and_whole {A = Option (List (Key × FileState) × ℕ)} pos 24
          (state_bytes state ++ (named ++ tail)) enough in
      let front = take-append 24 (state_bytes state) (named ++ tail) (sym size) in
      let back = drop-append 24 (state_bytes state) (named ++ tail) (sym size) in
      let whole_state : (length (state_bytes state) == 24) ≡ true = ground (arith, size) in
      let again = state_at-state_bytes state h0 h1 h2 h3 h4 (omega arith) in
      let len : length name % 2 ^ 32 ≡ length name = omega arith in
      let rest =
        read_name_whole c state (pos + 24) name tail snapshot (read_files c sys count total) len h5
          narrow in
      rw parts (simp (read, front, whole_state, back, again) rest)

  pub read_files_whole :
      (c : Containers) (recs : List (Key × FileRec)) (total pos : ℕ)
      (snapshot : List (Key × FileState))
      → AllSmall recs
      → size_files recs < 2 ^ 31
      → read_files c sys (count_files recs) total pos (records_bytes recs) snapshot
        ≡ some
            (add_kept c recs snapshot, if total == (pos + size_files recs) % 2 ^ 32 then 0 else 1)
  unfolding read_files records_bytes count_files size_files add_kept
  read_files_whole c [] total pos snapshot small room =
      let at_end : pos + 0 ≡ pos = omega arith in rw at_end refl
  read_files_whole c ((name, r) ∷ recs) total pos snapshot (s, small) room =
      elim (Bool-cases r.deleted) [
        | inl gone ↦
            let count : 0 + count_files recs ≡ count_files recs = omega arith in
            let size : 0 + size_files recs ≡ size_files recs = omega arith in
            simp (gone, count, size)
              (read_files_whole c recs total pos snapshot small (omega arith))
        | inr there ↦
            let count : 1 + count_files recs ≡ suc (count_files recs) = omega arith in
            let len = round_up (length name) in
            let size : pos + (24 + len + size_files recs) ≡ pos + 24 + len + size_files recs =
              omega arith in
            let room' : 24 + len + size_files recs < 2 ^ 31 =
              subst (λ b. (if b then 0 else sizeof_file_state + len) + size_files recs < 2 ^ 31)
                there room in
            let first =
              read_file_whole c (count_files recs) total pos name r (records_bytes recs) snapshot s
                (omega arith) in
            let later =
              read_files_whole c recs total (pos + 24 + len)
                (c.add_state name (kept_state name r) snapshot) small (omega arith) in
            simp (there, count, size) (first ∙ later)
      ]
