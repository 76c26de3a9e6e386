-- ===== src/BackupData/ReadBack.antt =====
-- What BackupDataReader (libs/androidfw/BackupData.cpp) does at bytes in the format, when no call
-- of `read` fails: one lemma for each of its steps.
use f2ut_platform_frameworks.Prelude.{
  Bool-cases, List, [], ap, arith, drop, drop-append, drop-drop, false, inl, inr, length,
  length-append, ltb, refl, some, sym, true, ℕ, ◌%◌, ◌+◌, ◌++◌, ◌-◌, ◌<◌, ◌==◌, ◌^◌, ◌∙◌, ◌∷◌, ◌≡◌,
}
use f2ut_platform_frameworks.BackupData.{Posix, padding_extra}
use f2ut_platform_frameworks.BackupData.Format.{header_bytes, pad}
use f2ut_platform_frameworks.BackupData.Reader.{
  BackupDataReader, advance, available, clamp_size, read_bytes, read_chunk, read_entity_data,
  read_next_header, remaining, skip_padding, take_data, wrong_size,
}
use f2ut_platform_frameworks.Prelude.Int.{ltb_ℤ, pos}
use f2ut_platform_frameworks.Prelude.Words.{sub64}
use f2ut_platform_frameworks.BackupData.Writer.{entity_header}
use mathlib.Core.List.{append-nil, append_assoc}
use f2ut_platform_frameworks.BackupData.ReadParts.{
  read_entity_key_whole, entity_header-type, forward, forward-zero, length-entity_header,
  length-pad, padded, padding_extra_aligned, padding_extra_closed, read_bytes_whole,
  skip_padding_whole, unread, unread-forward,
}

-- The reader behind the padding and the three `int`s of a header.
abbrev pub arrived : List ℕ → ℕ → BackupDataReader → BackupDataReader
arrived k d r = record (forward 12 (forward (padding_extra r.position) r)) {
  done = false;
  header = entity_header (length k) d;
}

module _ (k ys : List ℕ) (d : ℕ) (r : BackupDataReader) (header_room : drop 12 r.header ≡ []) where
  header_overlay :
      entity_header (length k) d ++ drop (length (entity_header (length k) d)) r.header
      ≡ entity_header (length k) d
  header_overlay =
      ap (λ n. entity_header (length k) d ++ drop n r.header) (length-entity_header (length k) d)
      ∙ (ap (λ zs. entity_header (length k) d ++ zs) header_room ∙ append-nil _)

-- The four parts of a header, with what follows them.
header_bytes-parts :
    (at d : ℕ) (k ys : List ℕ)
    → header_bytes at k d ++ ys
      ≡ pad at ++ (entity_header (length k) d ++ ((k ++ (0 ∷ [])) ++ (pad (length k + 1) ++ ys)))
header_bytes-parts at d k ys = simp append_assoc

module _ (sys : Posix) (moves : (at n : ℕ) → sys.returns at n ≡ some n)
    (lock : (n : ℕ) → sys.lock_buffer n ≡ true) (apart : (0 == sys.eio) ≡ false) where
  -- A header in the format is read whole, and its entity is at hand.
  pub read_next_header-header_bytes :
      (k ys : List ℕ) (d : ℕ) (r : BackupDataReader)
      → 0 < length k
      → length k + 1 < 2 ^ 31
      → d < 2 ^ 31
      → r.position + 16 < 2 ^ 62
      → r.status ≡ 0
      → drop 12 r.header ≡ []
      → unread r ≡ header_bytes r.position k d ++ ys
      → read_next_header sys r ≡ (padded k d (arrived k d r), false, r.status)
  unfolding read_next_header advance read_chunk
  read_next_header-header_bytes k ys d r named short small bound fine header_room left =
      let unguarded : (r.status == 0) ≡ true = ground arith in
      let ints = entity_header (length k) d in
      let left' = left ∙ header_bytes-parts r.position d k ys in
      let skipped = skip_padding_whole sys moves _ r left' (omega arith) in
      let r1 = forward (padding_extra r.position) r in
      let left1 =
        unread-forward sys moves (padding_extra r.position) (pad r.position) _ r left'
          (sym (length-pad r.position)) in
      let got =
        read_bytes_whole sys moves 12 ints _ r1 left1 (sym (length-entity_header (length k) d)) in
      let left2 =
        unread-forward sys moves 12 ints _ r1 left1 (sym (length-entity_header (length k) d)) in
      let position : (r.position + padding_extra r.position + 12) % 2 ^ 64
          ≡ r.position + padding_extra r.position + 12 =
        omega (arith, padding_extra_closed r.position) in
      let aligned =
        padding_extra_aligned r.position (length k + 1)
          (r.position + padding_extra r.position + 12 + (length k + 1)) refl in
      let keys =
        read_entity_key_whole sys moves lock k ys d (arrived k d r) named short small
          (omega (arith, padding_extra_closed r.position)) refl aligned left2 in
      rw
        (
          unguarded,
          skipped,
          apart,
          got,
          header_overlay k ys d r header_room,
          length-entity_header (length k) d,
          position,
          entity_header-type (length k) d,
        )
        (rw keys refl)

-- The reader behind an entity's data.
abbrev pub consumed : ℕ → BackupDataReader → BackupDataReader
consumed d r = forward d r

module _ (sys : Posix) (moves : (at n : ℕ) → sys.returns at n ≡ some n) where
  remaining_small :
      (d : ℕ) (r : BackupDataReader)
      → d < 2 ^ 31
      → r.position + d < 2 ^ 63
      → r.data_end_pos ≡ r.position + d
      → remaining r ≡ pos d
  unfolding sub64
  remaining_small d r small bound end =
      let low : (r.position + d + 2 ^ 64 - r.position) % 2 ^ 64 % 2 ^ 32 ≡ d = omega arith in
      rw (end, low) (ground arith)

  clamp_size_self : (d : ℕ) → clamp_size (pos d) d ≡ d
  unfolding clamp_size
  clamp_size_self d = ground arith

  -- The data of an entity is delivered by one call that asks for all of it.
  pub read_entity_data_whole :
      (value ys : List ℕ) (r : BackupDataReader)
      → length value < 2 ^ 31
      → r.position + length value < 2 ^ 63
      → r.status ≡ 0
      → r.data_end_pos ≡ r.position + length value
      → unread r ≡ value ++ ys
      → read_entity_data sys (length value) r
        ≡ (consumed (length value) r, some (length value), value)
  unfolding read_entity_data take_data advance
  read_entity_data_whole [] ys r small bound fine end left =
      let unguarded : (r.status == 0) ≡ true = ground arith in
      rw (unguarded, remaining_small 0 r small bound end)
        (sym (ap (λ x. (x, some 0, [])) (forward-zero r)))
  read_entity_data_whole (v ∷ value) ys r small bound fine end left =
      let unguarded : (r.status == 0) ≡ true = ground arith in
      let d = length (v ∷ value) in
      let got = read_bytes_whole sys moves d (v ∷ value) ys r left refl in
      let position : (r.position + d) % 2 ^ 64 ≡ r.position + d = omega arith in
      let more : ltb_ℤ (pos 0) (pos d) ≡ true = ground arith in
      let some_bytes : (d == 0) ≡ false = ground arith in
      rw (unguarded, remaining_small d r small bound end, more, clamp_size_self d, got)
        (rw (position, some_bytes) refl)

  read_bytes_end :
      (n : ℕ) (r : BackupDataReader) → unread r ≡ [] → read_bytes sys n r ≡ (some 0, [])
  unfolding read_bytes available
  read_bytes_end n r left =
      let none_there : available n r ≡ 0 = ground (arith, ap length left) in
      rw (none_there, moves r.offset 0, read_bytes) refl

  -- At the end of the file no bytes are left for the padding, or none for the header: the reader is
  -- done, and the call returns NO_ERROR.
  pub read_next_header-end :
      (r : BackupDataReader)
      → (0 == sys.eio) ≡ false
      → r.status ≡ 0
      → unread r ≡ []
      → ((read_next_header sys r).1 ≡ true) × ((read_next_header sys r).2 ≡ 0)
  unfolding read_next_header skip_padding wrong_size
  read_next_header-end r apart fine left =
      let unguarded : (r.status == 0) ≡ true = ground arith in
      elim (Bool-cases (ltb 0 (padding_extra r.position))) [
        | inl some_padding ↦
            let short : (0 == padding_extra r.position) ≡ false = ground arith in
            let same : (sys.eio == sys.eio) ≡ true = ground arith in
            rw
              (
                unguarded,
                some_padding,
                read_bytes_end (padding_extra r.position) r left,
                short,
                same,
              )
              (refl, refl)
        | inr no_padding ↦ rw (unguarded, no_padding, apart, read_bytes_end 12 r left) (refl, refl)
      ]

pub length-header_bytes :
    (at d : ℕ) (k : List ℕ)
    → length (header_bytes at k d)
      ≡ padding_extra at + 12 + (length k + 1) + padding_extra (length k + 1)
length-header_bytes at d k =
    let ints = entity_header (length k) d in
    omega (
      arith,
      length-append ((pad at ++ ints) ++ (k ++ (0 ∷ []))) (pad (length k + 1)),
      length-append (pad at ++ ints) (k ++ (0 ∷ [])),
      length-append (pad at) ints,
      length-append k (0 ∷ []),
      length-entity_header (length k) d,
      length-pad at,
      length-pad (length k + 1),
    )

pub unread-arrived :
    (k ys : List ℕ) (d : ℕ) (r : BackupDataReader)
    → unread r ≡ header_bytes r.position k d ++ ys
    → unread (padded k d (arrived k d r)) ≡ ys
unread-arrived k ys d r left =
    drop-drop r.offset (length (header_bytes r.position k d)) _ r.contents
      (omega (arith, length-header_bytes r.position d k))
    ∙ (ap (drop (length (header_bytes r.position k d))) left
        ∙ drop-append _ (header_bytes r.position k d) ys refl)
