-- ===== src/BackupData/Format.antt =====
-- The file format that libs/androidfw/BackupData.cpp describes in its first comment, and what
-- BackupDataWriter writes of it when no call of `write` fails.
use f2ut_platform_frameworks.Prelude.{
  Bool-cases, List, [], ap, arith, inl, inr, length, length-append, ltb, refl, replicate, some, sym,
  take_all, true, ℕ, ◌+◌, ◌++◌, ◌==◌, ◌∙◌, ◌∷◌, ◌≡◌,
}
use f2ut_platform_frameworks.BackupData.{Posix, padding_extra}
use f2ut_platform_frameworks.BackupData.Writer.{
  BackupDataWriter, entity_header, full_key, write_entity_data, write_entity_header,
  write_or_return, write_padding_for,
}
use mathlib.Core.List.{append-nil, append_assoc}
use native.Mathlib.Nat.{add-zero}

pub record Entity : Type 0 where
  pub key : List ℕ
  pub value : List ℕ

-- The bytes up to the next multiple of 4.
abbrev pub pad : ℕ → List ℕ
pad n = replicate (padding_extra n) 0xbc

-- What a header under a full key adds to a file, at a position.
abbrev pub header_bytes : ℕ → List ℕ → ℕ → List ℕ
header_bytes at key size =
    ((pad at ++ entity_header (length key) size) ++ (key ++ (0 ∷ []))) ++ pad (length key + 1)

-- Entities, under their full keys.
abbrev pub entity_bytes : List ℕ → ℕ → Entity → List ℕ
entity_bytes prefix at e = header_bytes at (full_key prefix e.key) (length e.value) ++ e.value

abbrev pub stream : List ℕ → ℕ → List Entity → List ℕ
stream prefix at [] = []
stream prefix at (e ∷ es) =
    entity_bytes prefix at e ++ stream prefix (at + length (entity_bytes prefix at e)) es

-- A client's calls for some entities.
unfoldable pub write_entities : Posix → List Entity → BackupDataWriter → BackupDataWriter
write_entities sys [] w = w
write_entities sys (e ∷ es) w =
    write_entities sys es
      (write_entity_data sys e.value (write_entity_header sys e.key (length e.value) w).0).0

-- `bytes` more in the file.
abbrev pub extend : List ℕ → BackupDataWriter → BackupDataWriter
extend bytes w = record w { out = w.out ++ bytes; pos = w.pos + length bytes }

pub extend-extend :
    (a b : List ℕ) (w : BackupDataWriter) → extend b (extend a w) ≡ extend (a ++ b) w
extend-extend a b w = λ i. record w { out = append_assoc w.out a b i; pos = pos_eq i }
  where
    pos_eq : (w.pos + length a) + length b ≡ w.pos + length (a ++ b)
    pos_eq = omega (arith, length-append a b)

pub extend-nil : (w : BackupDataWriter) → extend [] w ≡ w
extend-nil w = λ i. record w { out = append-nil w.out i; pos = add-zero w.pos i }

extend_four :
    (a b c d : List ℕ) (w : BackupDataWriter)
    → extend d (extend c (extend b (extend a w))) ≡ extend (((a ++ b) ++ c) ++ d) w
extend_four a b c d w =
    ap (λ v. extend d (extend c v)) (extend-extend a b w)
    ∙ (ap (extend d) (extend-extend (a ++ b) c w) ∙ extend-extend ((a ++ b) ++ c) d w)

-- The writer behind a header.
abbrev pub headed : Entity → BackupDataWriter → BackupDataWriter
headed e w = record (extend (header_bytes w.pos (full_key w.key_prefix e.key) (length e.value)) w) {
  entity_count = w.entity_count + 1;
}

module _ (sys : Posix) (moves : (at n : ℕ) → sys.returns at n ≡ some n) where
  write_or_return_whole :
      (bytes : List ℕ) (w : BackupDataWriter) (rest : BackupDataWriter → BackupDataWriter × ℕ)
      → write_or_return sys bytes w rest ≡ rest (extend bytes w)
  unfolding write_or_return
  write_or_return_whole bytes w rest =
      let same : (length bytes == length bytes) ≡ true = ground arith in
      rw (moves (length w.out) (length bytes), write_or_return, same, take_all _ bytes refl) refl

  write_padding_for_whole :
      (n : ℕ) (w : BackupDataWriter) → write_padding_for sys n w ≡ (extend (pad n) w, 0)
  unfolding write_padding_for
  write_padding_for_whole n w = elim (Bool-cases (ltb 0 (padding_extra n))) [
    | inl some_bytes ↦
        rw some_bytes (write_or_return_whole (replicate (padding_extra n) 0xbc) w (λ w'. (w', 0)))
    | inr none_left ↦
        let zero_bytes : padding_extra n ≡ 0 = ground arith in
        rw (none_left, zero_bytes) (sym (ap (λ x. (x, 0)) (extend-nil w)))
  ]

  pub write_entity_header_whole :
      (key : List ℕ) (size : ℕ) (w : BackupDataWriter)
      → w.status ≡ 0
      → write_entity_header sys key size w ≡ (
        record (extend (header_bytes w.pos (full_key w.key_prefix key) size) w) {
          entity_count = w.entity_count + 1;
        },
        0,
      )
  unfolding write_entity_header
  write_entity_header_whole key size w fine =
      let unguarded : (w.status == 0) ≡ true = ground arith in
      rw
        (
          unguarded, write_padding_for_whole, write_or_return_whole, write_or_return_whole,
          write_padding_for_whole,
        )
        (ap (λ (v : BackupDataWriter). (record v { entity_count = v.entity_count + 1 }, 0))
          (extend_four (pad w.pos) _ _ _ w))

  pub write_entity_data_whole :
      (bytes : List ℕ) (w : BackupDataWriter)
      → w.status ≡ 0
      → write_entity_data sys bytes w ≡ (extend bytes w, 0)
  unfolding write_entity_data
  write_entity_data_whole bytes w fine =
      let unguarded : (w.status == 0) ≡ true = ground arith in
      rw (unguarded, write_or_return_whole) refl

  -- The writer behind an entity.
  after : Entity → BackupDataWriter → BackupDataWriter
  after e w = record (extend (entity_bytes w.key_prefix w.pos e) w) {
    entity_count = w.entity_count + 1;
  }

  write_entity-after :
      (e : Entity) (w : BackupDataWriter)
      → w.status ≡ 0
      → (write_entity_data sys e.value (write_entity_header sys e.key (length e.value) w).0).0
        ≡ after e w
  unfolding after
  write_entity-after e w fine = rw (write_entity_header_whole e.key (length e.value) w fine) (
      rw (write_entity_data_whole e.value (headed e w) fine) (
        ap (λ (v : BackupDataWriter). record v { entity_count = w.entity_count + 1 })
          (extend-extend (header_bytes w.pos (full_key w.key_prefix e.key) (length e.value)) e.value
            w)))

  -- If no call of `write` fails, the file holds the format's bytes, and the status is NO_ERROR.
  pub write_entities-stream :
      (es : List Entity) (w : BackupDataWriter)
      → w.status ≡ 0
      → ((write_entities sys es w).out ≡ w.out ++ stream w.key_prefix w.pos es)
        × ((write_entities sys es w).status ≡ 0)
  unfolding write_entities after
  write_entities-stream [] w fine = (sym (append-nil w.out), fine)
  write_entities-stream (e ∷ es) w fine =
      let step = ap (write_entities sys es) (write_entity-after e w fine) in
      let rest = write_entities-stream es (after e w) fine in
      (
        ap (λ v. v.out) step
            ∙ (rest.0
                ∙ append_assoc w.out (entity_bytes w.key_prefix w.pos e)
                    (stream w.key_prefix (w.pos + length (entity_bytes w.key_prefix w.pos e)) es)),
        ap (λ v. v.status) step ∙ rest.1,
      )
