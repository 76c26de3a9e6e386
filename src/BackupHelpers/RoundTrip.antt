-- ===== src/BackupHelpers/RoundTrip.antt =====
-- Reading the snapshot file that was written (libs/androidfw/BackupHelpers.cpp).
use f2ut_platform_frameworks.Prelude.{
  Bool-cases, List, Option, [], drop-append, take-append, if◌then◌else◌, length, length-append, ltb,
  some, ℕ, ◌%◌, ◌+◌, ◌++◌, ◌==◌, ◌^◌, ◌∷◌, ap, arith, refl, sym, ◌∙◌, ◌≡◌, ◌<◌, ◌≤◌, true, inl, inr,
}
use f2ut_platform_frameworks.BackupData.{Posix, le32, le32_at}
use f2ut_platform_frameworks.BackupHelpers.{FileRec, FileState, magic0, magic1}
use f2ut_platform_frameworks.BackupHelpers.Keys.{Containers, Key}
use f2ut_platform_frameworks.BackupHelpers.Snapshot.{
  count_files, read_snapshot_file, size_files, snapshot_header, write_snapshot_file,
}
use f2ut_platform_frameworks.BackupHelpers.Written.{
  add_kept, AllSmall, records_bytes, write_snapshot_whole,
}
use f2ut_platform_frameworks.BackupHelpers.ReadBack.{read_and_whole, read_files_whole}

count-le-size : (recs : List (Key × FileRec)) → count_files recs ≤ size_files recs
unfolding count_files size_files
count-le-size [] = omega arith
count-le-size ((name, r) ∷ recs) = elim (Bool-cases r.deleted) [
  | inl gone ↦ simp gone (omega (arith, count-le-size recs))
  | inr there ↦ simp there (omega (arith, count-le-size recs))
]

pub header_words :
    (count total : ℕ)
    → count < 2 ^ 32
    → total < 2 ^ 32
    → (length (snapshot_header count total) ≡ 16)
      × (le32_at 0 (snapshot_header count total) ≡ magic0)
      × (le32_at 4 (snapshot_header count total) ≡ count)
      × (le32_at 8 (snapshot_header count total) ≡ magic1)
      × (le32_at 12 (snapshot_header count total) ≡ total)
unfolding snapshot_header le32 le32_at
header_words count total h k = (refl, refl, omega arith, refl, omega arith)

-- Where no call of write or read fails, the numbers of the files fit in their `int`s, and the whole
-- snapshot is shorter than 2 ^ 31 bytes: read_snapshot_file reads from the file that
-- write_snapshot_file wrote the states of the files that were not deleted, each under its name and
-- with the length of the name, added in their order, and reports no error.
pub read_snapshot_file-write_snapshot_file :
    (c : Containers) (sys : Posix) (recs : List (Key × FileRec))
    → ((at n : ℕ) → sys.returns at n ≡ some n)
    → AllSmall recs
    → 16 + size_files recs < 2 ^ 31
    → ((write_snapshot_file sys recs []).1 ≡ 0)
      × (read_snapshot_file c sys (write_snapshot_file sys recs []).0
          ≡ some (add_kept c recs [], 0))
unfolding read_snapshot_file
read_snapshot_file-write_snapshot_file c sys recs moves small short =
    let count = count_files recs in
    let total = 16 + size_files recs in
    let (size, w0, w1, w2, w3) =
      header_words count total (omega (arith, count-le-size recs)) (omega arith) in
    let header = snapshot_header count total in
    let enough : 16 ≤ length (header ++ records_bytes recs) =
      omega (arith, size, length-append {0} header (records_bytes recs)) in
    let read =
      read_and_whole sys moves {A = Option (List (Key × FileState) × ℕ)} 0 16
        (header ++ records_bytes recs) enough in
    let front = take-append 16 header (records_bytes recs) (sym size) in
    let back = drop-append 16 header (records_bytes recs) (sym size) in
    let whole_header : (length header == 16) ≡ true = ground (arith, size) in
    let few : ltb count (2 ^ 31) ≡ true = ground (arith, count-le-size recs) in
    let fits : (total == total % 2 ^ 32) ≡ true = ground arith in
    let rest = read_files_whole sys moves c recs total 16 [] small (omega arith) in
    rw (write_snapshot_whole sys moves recs) (
      refl,
      simp (read, front, whole_header, w0, w1, w2, w3, few, back)
          (rest ∙ ap (λ b. some (add_kept c recs [], if b then 0 else 1)) fits),
    )
