-- ===== src/BackupHelpers/Promise.antt =====
-- write_update_file of libs/androidfw/BackupHelpers.cpp sends as many bytes as it announced, however
-- the file changes under it.
use f2ut_platform_frameworks.Prelude.{
  ◌%◌, ◌<◌, ◌^◌, Bool-cases, List, Option, [], ap, arith, if◌then◌else◌, inl, inr, length,
  length-append, length-replicate, ltb, none, refl, replicate, some, suc, sym, take, zero, ℕ, ◌+◌,
  ◌++◌, ◌-◌, ◌==◌, ◌∙◌, ◌∷◌, ◌≡◌, ◌≤◌, ◌||◌, subst,
}
use f2ut_platform_frameworks.BackupData.{Posix, le32, widen}
use f2ut_platform_frameworks.BackupData.Writer.{
  BackupDataWriter, write_entity_data, write_entity_header,
}
use f2ut_platform_frameworks.BackupData.Format.{
  Entity, extend, extend-extend, extend-nil, write_entities, write_entity_data_whole,
  write_entity_header_whole, headed,
}
use f2ut_platform_frameworks.BackupHelpers.Keys.{Key}
use f2ut_platform_frameworks.BackupHelpers.Update.{
  OpenFile, metadata, positive_int, pad_sent, send_reads, send_zeros, update_open_file,
}

-- The bytes that stand for a file of `left` bytes: what its reads deliver, cut to that length and
-- filled with zeros.
unfoldable pub content : ℕ → List (Option (List ℕ)) → List ℕ
content left [] = replicate left 0
content left (none ∷ reads) = replicate left 0
content left (some buf ∷ reads) =
    let rest = take left buf ++ content (left - length buf) reads in
    if length buf == 0 || left == 0 then replicate left 0 else rest

-- No read fails.
abbrev pub AllRead : List (Option (List ℕ)) → Type 0
AllRead [] = Unit {0}
AllRead (none ∷ reads) = ⊥
AllRead (some buf ∷ reads) = AllRead reads

length-take {ℓ} : {A : Type ℓ} (n : ℕ) (xs : List A) → length (take n xs) + (n - length xs) ≡ n
length-take zero xs = omega arith
length-take (suc n) [] = omega arith
length-take (suc n) (x ∷ xs) = omega (arith, length-take n xs)

length-content : (left : ℕ) (reads : List (Option (List ℕ))) → length (content left reads) ≡ left
unfolding content
length-content left [] = length-replicate left 0
length-content left (none ∷ reads) = length-replicate left 0
length-content left (some buf ∷ reads) = elim (Bool-cases (length buf == 0 || left == 0)) [
  | inl stop ↦ rw stop (length-replicate left 0)
  | inr more ↦ rw more (
      omega (
        arith,
        length-append {0} (take left buf) (content (left - length buf) reads),
        length-content (left - length buf) reads,
        length-take {0} left buf,
      ))
]

replicate-add {ℓ} :
    {A : Type ℓ} (m n k : ℕ) (v : A) → k ≡ m + n → replicate m v ++ replicate n v ≡ replicate k v
replicate-add zero n k v e = ap (λ i. replicate i v) (omega arith)
replicate-add (suc m) n zero v e = absurd (omega arith)
replicate-add (suc m) n (suc k) v e = ap (λ xs. v ∷ xs) (replicate-add m n k v (omega arith))

module _ (sys : Posix) (moves : (at n : ℕ) → sys.returns at n ≡ some n) where
  send_zeros_whole :
      (fuel left : ℕ) (w : BackupDataWriter)
      → left ≤ fuel
      → w.status ≡ 0
      → send_zeros sys fuel left w ≡ (extend (replicate left 0) w, 0)
  unfolding send_zeros
  send_zeros_whole zero left w enough fine =
      let nothing : 0 ≡ left = omega arith in
      sym (ap (λ x. (x, 0)) (extend-nil w)) ∙ ap (λ k. (extend (replicate k 0) w, 0)) nothing
  send_zeros_whole (suc fuel) left w enough fine = elim (Bool-cases (left == 0)) [
    | inl stop ↦
        let nothing : 0 ≡ left = ground arith in
        simp stop
          (sym (ap (λ x. (x, 0)) (extend-nil w)) ∙ ap (λ k. (extend (replicate k 0) w, 0)) nothing)
    | inr more ↦
        let amt = if ltb left 4096 then left else 4096 in
        let zeros : List ℕ = replicate amt 0 in
        let step = write_entity_data_whole sys moves zeros w fine in
        let later = send_zeros_whole fuel (left - amt) (extend zeros w) (ground arith) fine in
        let parts : left ≡ amt + (left - amt) = ground arith in
        simp (more, step)
          (later
            ∙ ap (λ x. (x, 0))
                (extend-extend zeros (replicate (left - amt) 0) w
                  ∙ ap (λ bytes. extend bytes w) (replicate-add amt (left - amt) left 0 parts)))
  ]

  send_reads_whole :
      (reads : List (Option (List ℕ))) (left : ℕ) (w : BackupDataWriter)
      → AllRead reads
      → w.status ≡ 0
      → pad_sent sys (send_reads sys reads left w) ≡ some (extend (content left reads) w, 0)
  unfolding send_reads pad_sent content
  send_reads_whole [] left w r fine = ap some (send_zeros_whole left left w (omega arith) fine)
  send_reads_whole (none ∷ reads) left w r fine = absurd r
  send_reads_whole (some buf ∷ reads) left w r fine =
      elim (Bool-cases (length buf == 0 || left == 0)) [
        | inl stop ↦ rw stop (ap some (send_zeros_whole left left w (omega arith) fine))
        | inr more ↦
            let step = write_entity_data_whole sys moves (take left buf) w fine in
            let later =
              send_reads_whole reads (left - length buf) (extend (take left buf) w) r fine in
            simp (more, step)
              (later
                ∙ ap (λ x. some (x, 0))
                    (extend-extend (take left buf) (content (left - length buf) reads) w))
      ]

-- The entity of a file: its metadata and its contents.
abbrev pub file_entity : OpenFile → ℕ → Key → Entity
file_entity f mode key = record { key = key; value = metadata mode ++ content f.size f.reads }

length-metadata : (mode : ℕ) → length (metadata mode) ≡ 16
unfolding metadata le32
length-metadata mode = refl

announced_small : (n : ℕ) → n + 16 < 2 ^ 31 → widen ((n + 16) % 2 ^ 32) ≡ n + 16
unfolding widen
announced_small n h = ground arith

positive_int_small : (n : ℕ) → n + 16 < 2 ^ 31 → positive_int n ≡ n
unfolding positive_int
positive_int_small n h = ground arith

-- Where no call of write or read fails, the stream has no error yet, and the file was shorter than
-- 2 ^ 31 - 16 bytes when it was measured, write_update_file of an open file sends one entity, as a
-- client of the stream would write it, and returns 0. The entity's value has the 16 bytes of the
-- metadata and as many bytes as the file had when it was measured: what was read, cut to that
-- length or filled with zeros.
pub update_open_file-write_entities :
    (sys : Posix) (f : OpenFile) (mode : ℕ) (key : Key) (w : BackupDataWriter)
    → ((at n : ℕ) → sys.returns at n ≡ some n)
    → AllRead f.reads
    → w.status ≡ 0
    → f.size + 16 < 2 ^ 31
    → (update_open_file sys f mode key w
        ≡ some (write_entities sys (file_entity f mode key ∷ []) w, 0))
      × (length (content f.size f.reads) ≡ f.size)
unfolding update_open_file write_entities
update_open_file-write_entities sys f mode key w moves reads fine small =
    let bytes = content f.size f.reads in
    let e = file_entity f mode key in
    let size : length e.value ≡ f.size + 16 = omega (
      arith,
      length-append {0} (metadata mode) bytes,
      length-metadata mode,
      length-content f.size f.reads,
    ) in
    let announced = announced_small f.size small in
    let measured = positive_int_small f.size small in
    let header' = write_entity_header_whole sys moves key (length e.value) w fine in
    let w1 = headed e w in
    let same = subst (λ n. write_entity_header sys key n w ≡ (w1, 0)) size header' in
    let meta = write_entity_data_whole sys moves (metadata mode) w1 fine in
    let body = send_reads_whole sys moves f.reads f.size (extend (metadata mode) w1) reads fine in
    let value = write_entity_data_whole sys moves e.value w1 fine in
    let sent_as : update_open_file sys f mode key w ≡ some (extend e.value w1, 0) =
      simp (announced, measured, same, meta)
        (body ∙ ap (λ v. some (v, 0)) (extend-extend (metadata mode) bytes w1)) in
    let written : write_entities sys (e ∷ []) w ≡ extend e.value w1 =
      ap (λ (x : BackupDataWriter × ℕ). (write_entity_data sys e.value x.0).0) header'
      ∙ ap (λ (x : BackupDataWriter × ℕ). x.0) value in
    (sent_as ∙ ap (λ v. some (v, 0)) (sym written), length-content f.size f.reads)

-- Where no read fails, the file is sent without anything undefined.
pad_sent-some :
    (sys : Posix) (reads : List (Option (List ℕ))) (left : ℕ) (w : BackupDataWriter)
    → AllRead reads
    → (r : BackupDataWriter × ℕ) × (pad_sent sys (send_reads sys reads left w) ≡ some r)
unfolding send_reads pad_sent
pad_sent-some sys [] left w r = (send_zeros sys left left w, refl)
pad_sent-some sys (none ∷ reads) left w r = absurd r
pad_sent-some sys (some buf ∷ reads) left w r =
    let (w', err) = write_entity_data sys (take left buf) w in
    elim (Bool-cases (length buf == 0 || left == 0)) [
      | inl stop ↦ (send_zeros sys left left w, rw stop refl)
      | inr more ↦ elim (Bool-cases (err == 0)) [
        | inr bad ↦ ((w', err), rw (more, bad) refl)
        | inl fine ↦
            let (r, e) = pad_sent-some sys reads (left - length buf) w' r in (r, rw (more, fine) e)
      ]
    ]

pub update_open_file-some :
    (sys : Posix) (f : OpenFile) (mode : ℕ) (key : Key) (w : BackupDataWriter)
    → AllRead f.reads
    → (w' : BackupDataWriter) × (err : ℕ) × (update_open_file sys f mode key w ≡ some (w', err))
unfolding update_open_file
update_open_file-some sys f mode key w r =
    let (w1, err1) = write_entity_header sys key (widen ((f.size + 16) % 2 ^ 32)) w in
    let (w2, err2) = write_entity_data sys (metadata mode) w1 in
    elim (Bool-cases (err1 == 0)) [
      | inr bad ↦ (w1, err1, rw bad refl)
      | inl fine ↦ elim (Bool-cases (err2 == 0)) [
        | inr bad ↦ (w2, err2, rw (fine, bad) refl)
        | inl fine' ↦
            let ((w', err), e) = pad_sent-some sys f.reads (positive_int f.size) w2 r in
            (w', err, rw (fine, fine') e)
      ]
    ]
