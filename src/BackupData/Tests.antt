-- ===== src/BackupData/Tests.antt =====
-- The entity stream at concrete inputs.
use f2ut_platform_frameworks.Prelude.{
  List, [], arith, length, refl, some, true, ℕ, ◌+◌, ◌++◌, ◌-◌, ◌<◌, ◌^◌, ◌∷◌, ◌≡◌, ltb,
  if◌then◌else◌,
}
use f2ut_platform_frameworks.BackupData.{Posix, le32, padding_extra}
use f2ut_platform_frameworks.BackupData.Format.{Entity, stream, write_entities}
use f2ut_platform_frameworks.BackupData.Poison.{
  all_return, content, header, run, short_write_poisons,
}
use f2ut_platform_frameworks.BackupData.Reader.{new_reader}
use f2ut_platform_frameworks.BackupData.RoundTrip.{AllFit, Delivers, read-write}
use f2ut_platform_frameworks.BackupData.Writer.{
  BackupDataWriter, entity_header, full_key, new_writer, set_key_prefix, write_entity_data,
  write_or_return, write_entity_header, write_padding_for,
}

-- A system on which every call succeeds.
abbrev willing : Posix
willing = record {
  returns = λ at n. some n;
  errno = 0;
  seekable = λ at. true;
  lock_buffer = λ n. true;
  eio = 5;
  einval = 22;
  enomem = 12;
}

-- A disk of 8 bytes, and the errno that its last call left.
abbrev full_disk : ℕ → Posix
full_disk error = record willing {
  returns = λ at n. some (if ltb 8 (at + n) then 8 - at else n);
  errno = error;
}

abbrev two_entities : List Entity
two_entities =
    record { key = b'k' ∷ []; value = 1 ∷ 2 ∷ 3 ∷ 4 ∷ 5 ∷ [] }
    ∷ record { key = b'l' ∷ b'm' ∷ []; value = [] }
    ∷ []

two_entities-AllFit : AllFit (b'p' ∷ []) two_entities
unfolding full_key
two_entities-AllFit = (
  record { named = omega arith; short = omega arith; small = omega arith },
  (record { named = omega arith; short = omega arith; small = omega arith }, tt),
)

two_entities_room : 3 + length (stream (b'p' ∷ []) 3 two_entities) + 64 < 2 ^ 62
unfolding full_key entity_header le32 padding_extra
two_entities_room = omega arith

read-write_example : Delivers willing (b'p' ∷ []) two_entities (
    new_reader
      ((9 ∷ 9 ∷ 9 ∷ [])
        ++ (write_entities willing two_entities (set_key_prefix (b'p' ∷ []) (new_writer 3))).out)
      3
      0)
read-write_example =
    read-write willing (b'p' ∷ []) (9 ∷ 9 ∷ 9 ∷ []) two_entities 0 (λ at n. refl) (λ n. refl) refl
      two_entities-AllFit two_entities_room

abbrev nine : List ℕ
nine = 1 ∷ 2 ∷ 3 ∷ 4 ∷ 5 ∷ 6 ∷ 7 ∷ 8 ∷ 9 ∷ []

abbrev blank : BackupDataWriter
blank = record { out = []; status = 0; pos = 0; entity_count = 0; key_prefix = [] }

short_write_poisons_example :
    ((write_entity_data (full_disk 28) nine blank).1 ≡ 28)
    × (run
          (full_disk 28)
          (content (7 ∷ []) ∷ header (b'k' ∷ []) 2 ∷ [])
          (write_entity_data (full_disk 28) nine blank).0
        ≡ (
          (write_entity_data (full_disk 28) nine blank).0,
          all_return 28 (content (7 ∷ []) ∷ header (b'k' ∷ []) 2 ∷ []),
        ))
short_write_poisons_example =
    short_write_poisons (full_disk 28) nine blank 8 refl refl (omega arith)
      (content (7 ∷ []) ∷ header (b'k' ∷ []) 2 ∷ []) (omega arith)

-- The bytes of one entity, from the top of the file.
one_entity :
    (write_entities willing (record { key = b'k' ∷ []; value = 7 ∷ [] } ∷ []) (new_writer 0)).out
    ≡ 0x44 ∷ 0x61 ∷ 0x74 ∷ 0x61 ∷ 1 ∷ 0 ∷ 0 ∷ 0 ∷ 1 ∷ 0 ∷ 0 ∷ 0 ∷ b'k' ∷ 0 ∷ 0xbc ∷ 0xbc ∷ 7 ∷ []
unfolding write_entities new_writer write_entity_header write_entity_data write_or_return
    write_padding_for entity_header le32 padding_extra full_key
one_entity = refl
