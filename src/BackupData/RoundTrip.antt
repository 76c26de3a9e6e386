-- ===== src/BackupData/RoundTrip.antt =====
-- What BackupDataWriter writes, BackupDataReader reads (libs/androidfw/BackupData.cpp).
use f2ut_platform_frameworks.Prelude.{
  List, [], ap, arith, drop, drop-append, false, length, length-append, refl, some, subst, sym,
  true, ℕ, ◌+◌, ◌++◌, ◌<◌, ◌==◌, ◌^◌, ◌∙◌, ◌∷◌, ◌≡◌,
}
use f2ut_platform_frameworks.BackupData.{Posix, le32, le32_at}
use f2ut_platform_frameworks.BackupData.Format.{
  Entity, entity_bytes, header_bytes, stream, write_entities, write_entities-stream,
}
use f2ut_platform_frameworks.BackupData.Reader.{
  BackupDataReader, new_reader, read_entity_data, read_entity_header, read_next_header,
}
use f2ut_platform_frameworks.BackupData.ReadParts.{
  entity_header-data_size, entity_header-type, padded, unread, unread-forward,
}
use f2ut_platform_frameworks.BackupData.ReadBack.{
  arrived, consumed, read_entity_data_whole, read_next_header-end, read_next_header-header_bytes,
  length-header_bytes, unread-arrived,
}
use f2ut_platform_frameworks.BackupData.Writer.{entity_header, full_key, new_writer, set_key_prefix}
use mathlib.Core.List.{append_assoc}

-- The keys and sizes that the header's `int`s hold.
pub record Fits (prefix : List ℕ) (e : Entity) : Type 0 where
  pub named : 0 < length (full_key prefix e.key)
  pub short : length (full_key prefix e.key) + 1 < 2 ^ 31
  pub small : length e.value < 2 ^ 31

abbrev pub AllFit : List ℕ → List Entity → Type 0
AllFit prefix [] = Unit {0}
AllFit prefix (e ∷ es) = Fits prefix e × AllFit prefix es

-- A client that asks for each header, its key and size, and its data gets these entities under
-- their full keys, and then the end, with no error on the way.
abbrev pub Delivers : Posix → List ℕ → List Entity → BackupDataReader → Type 0
Delivers sys prefix [] r = ((read_next_header sys r).1 ≡ true) × ((read_next_header sys r).2 ≡ 0)
Delivers sys prefix (e ∷ es) r =
    let found = (read_next_header sys r).0 in
    let got = read_entity_data sys (length e.value) found in
    ((read_next_header sys r).1 ≡ false)
    × ((read_next_header sys r).2 ≡ 0)
    × (read_entity_header sys found ≡ (0, some (full_key prefix e.key, length e.value)))
    × (got.1 ≡ some (length e.value))
    × (got.2 ≡ e.value)
    × Delivers sys prefix es got.0

header-full : (a b : ℕ) → drop 12 (entity_header a b) ≡ []
unfolding entity_header le32
header-full a b = refl

header_at_hand :
    (sys : Posix) (k : List ℕ) (d : ℕ) (r : BackupDataReader)
    → d < 2 ^ 32
    → r.status ≡ 0
    → r.header ≡ entity_header (length k) d
    → r.key ≡ k
    → read_entity_header sys r ≡ (0, some (k, d))
unfolding read_entity_header
header_at_hand sys k d r small fine header named =
    let unguarded : (r.status == 0) ≡ true = ground arith in
    let type = ap (le32_at 0) header ∙ entity_header-type (length k) d in
    let size = ap (le32_at 8) header ∙ entity_header-data_size (length k) d small in
    rw (unguarded, type, size, named) refl

module _ (sys : Posix) (moves : (at n : ℕ) → sys.returns at n ≡ some n)
    (lock : (n : ℕ) → sys.lock_buffer n ≡ true) (apart : (0 == sys.eio) ≡ false) where
  stream-Delivers :
      (prefix : List ℕ) (es : List Entity) (r : BackupDataReader)
      → AllFit prefix es
      → r.position + length (stream prefix r.position es) + 64 < 2 ^ 62
      → r.status ≡ 0
      → drop 12 r.header ≡ []
      → unread r ≡ stream prefix r.position es
      → Delivers sys prefix es r
  stream-Delivers prefix [] r fit room fine header_room left =
      read_next_header-end sys moves r apart fine left
  stream-Delivers prefix (e ∷ es) r (fits, fit) room fine header_room left =
      let k = full_key prefix e.key in
      let d = length e.value in
      let at' = r.position + length (entity_bytes prefix r.position e) in
      let rest = stream prefix at' es in
      let q = padded k d (arrived k d r) in
      let split = left ∙ append_assoc (header_bytes r.position k d) e.value rest in
      let total = length-append (entity_bytes prefix r.position e) rest in
      let entity_size = length-append (header_bytes r.position k d) e.value in
      let header_size = length-header_bytes r.position d k in
      let found =
        read_next_header-header_bytes sys moves lock apart k (e.value ++ rest) d r fits.named
          fits.short fits.small (omega (arith, total, entity_size, header_size)) fine header_room
          split in
      let ahead = unread-arrived k (e.value ++ rest) d r split in
      let got =
        read_entity_data_whole sys moves e.value rest q fits.small
          (omega (arith, total, entity_size, header_size)) fine refl ahead in
      let position : (consumed d q).position ≡ at' = omega (arith, entity_size, header_size) in
      let room' =
        subst (λ p. p + length (stream prefix p es) + 64 < 2 ^ 62) (sym position)
          (omega (arith, total)) in
      let left' =
        unread-forward sys moves d e.value rest q ahead refl
        ∙ ap (λ p. stream prefix p es) (sym position) in
      let delivered =
        stream-Delivers prefix es (consumed d q) fit room' fine (header-full (length k) d) left' in
      rw (found, got)
        (
          refl,
          fine,
          header_at_hand sys k d q (omega (arith, fits.small)) fine refl refl,
          refl,
          refl,
          delivered,
        )

-- If no call of `write`, `read` or lockBuffer fails, EIO is not 0, no full key (the prefix, a colon
-- and the key, or the key alone without a prefix) is empty, each full key with its null and each
-- value has fewer than 2 ^ 31 bytes, and the file, whatever bytes it begins with, stays 64 bytes
-- below 2 ^ 62, then a reader of the file that a writer made, placed where the writer began, delivers
-- the entities that were written, each under its full key, and then the end, with no error.
pub read-write :
    (sys : Posix) (prefix front : List ℕ) (es : List Entity) (unset : ℕ)
    → ((at n : ℕ) → sys.returns at n ≡ some n)
    → ((n : ℕ) → sys.lock_buffer n ≡ true)
    → (0 == sys.eio) ≡ false
    → AllFit prefix es
    → length front + length (stream prefix (length front) es) + 64 < 2 ^ 62
    → Delivers sys prefix es (
        new_reader
          (front ++ (write_entities sys es (set_key_prefix prefix (new_writer (length front)))).out)
          (length front)
          unset)
unfolding new_reader new_writer set_key_prefix
read-write sys prefix front es unset moves lock apart fit room =
    let w = set_key_prefix prefix (new_writer (length front)) in
    let file = write_entities-stream sys moves es w refl in
    let contents = front ++ (write_entities sys es w).out in
    stream-Delivers sys moves lock apart prefix es (new_reader contents (length front) unset) fit
      room refl refl (drop-append (length front) front _ refl ∙ file.0)
