-- ===== src/BackupData/Reader.antt =====
-- BackupDataReader of libs/androidfw/BackupData.cpp.
use f2ut_platform_frameworks.Prelude.{
  Bool, List, Option, [], drop, false, if◌then◌else◌, length, ltb, none, not, replicate, some, take,
  true, ℕ, ◌%◌, ◌&&◌, ◌+◌, ◌++◌, ◌-◌, ◌==◌, ◌^◌,
}
use f2ut_platform_frameworks.Prelude.Words.{signed32, sub64}
use f2ut_platform_frameworks.Prelude.Int.{ltb_ℤ, pos_part, pos, ℤ}
use f2ut_platform_frameworks.BackupData.{
  Posix, backup_header_entity_v1, le32_at, padding_extra, sizeof_entity_header, whole, widen,
}

-- The file behind the descriptor and the descriptor's offset, and the members. `header` is the
-- union m_header in memory; `position` and `data_end_pos` are 64-bit patterns.
pub record BackupDataReader : Type 0 where
  pub contents : List ℕ
  pub offset : ℕ
  pub done : Bool
  pub status : ℕ
  pub position : ℕ
  pub data_end_pos : ℕ
  pub entity_count : ℕ
  pub header : List ℕ
  pub key : List ℕ

-- The constructor leaves m_dataEndPos unset; its value is a parameter.
unfoldable pub new_reader : List ℕ → ℕ → ℕ → BackupDataReader
new_reader contents offset unset = record {
  contents = contents;
  offset = offset;
  done = false;
  status = 0;
  position = offset;
  data_end_pos = unset;
  entity_count = 0;
  header = replicate sizeof_entity_header 0;
  key = [];
}

-- The number of bytes that `read` could deliver.
unfoldable pub available : ℕ → BackupDataReader → ℕ
available n r = let rest = length (drop r.offset r.contents) in if ltb rest n then rest else n

-- `read(m_fd, buf, n)`: what it returns, and the bytes that it stores.
unfoldable pub read_bytes : Posix → ℕ → BackupDataReader → Option ℕ × List ℕ
read_bytes sys n r = elim (sys.returns r.offset (available n r)) [
  | none ↦ (none, [])
  | some amt ↦ (some amt, take amt (drop r.offset r.contents))
]

-- The descriptor behind such a read.
unfoldable pub advance : List ℕ → BackupDataReader → BackupDataReader
advance bytes r = record r { offset = r.offset + length bytes }

-- CHECK_SIZE where it returns: a read of nothing is the end of the file.
unfoldable pub wrong_size : Posix → Option ℕ → BackupDataReader → BackupDataReader
wrong_size sys amt r =
    if whole amt 0
    then record r { status = sys.eio; done = true }
    else record r { status = sys.errno }

unfoldable pub skip_padding : Posix → BackupDataReader → BackupDataReader × ℕ
skip_padding sys r =
    let n = padding_extra r.position in
    if ltb 0 n
    then (let (amt, bytes) = read_bytes sys n r in
        let r1 = advance bytes r in
        if whole amt n
        then (record r1 { position = (r.position + n) % 2 ^ 64 }, 0)
        else (let r2 = wrong_size sys amt r1 in (r2, r2.status)))
    else (r, 0)

-- SKIP_PADDING, and what follows.
unfoldable pub skip_padding_or_return :
    Posix → BackupDataReader → (BackupDataReader → BackupDataReader × ℕ) → BackupDataReader × ℕ
skip_padding_or_return sys r rest =
    let (r1, err) = skip_padding sys r in
    if err == 0 then rest r1 else (record r1 { status = err }, err)

-- m_header.type, m_header.entity.keyLen and m_header.entity.dataSize
abbrev header_type : BackupDataReader → ℕ
header_type r = le32_at 0 r.header

abbrev pub key_len : BackupDataReader → ℕ
key_len r = le32_at 4 r.header

abbrev pub data_size : BackupDataReader → ℕ
data_size r = le32_at 8 r.header

-- The `int`s on which CHECK_SIZE compares the read of the key.
unfoldable pub whole_int : Option ℕ → ℕ → Bool
whole_int none n = 2 ^ 32 - 1 == n % 2 ^ 32
whole_int (some amt) n = amt % 2 ^ 32 == n % 2 ^ 32

-- The rest of an entity's header: the key, its null and the padding. A length that is not positive
-- sets the status, and the key is read all the same. After a failed read the old key is left.
unfoldable pub read_entity_key : Posix → BackupDataReader → BackupDataReader × ℕ
read_entity_key sys r =
    let valid = ltb 0 (key_len r) && ltb (key_len r) (2 ^ 31) in
    let size = widen (key_len r) in
    let r1 = record r {
      status = if valid then r.status else sys.einval;
      entity_count = r.entity_count + 1;
    } in
    if not (sys.lock_buffer size)
    then (record r1 { status = sys.enomem }, sys.enomem)
    else (let (amt, bytes) = read_bytes sys ((size + 1) % 2 ^ 64) r1 in
        let r2 = advance bytes r1 in
        if not (whole_int amt (size + 1))
        then (let r3 = wrong_size sys amt r2 in (r3, r3.status))
        else skip_padding_or_return sys
            (record r2 { key = take size bytes; position = (r2.position + size + 1) % 2 ^ 64 })
            λ r4. (
              record r4 { data_end_pos = (r4.position + widen (data_size r4)) % 2 ^ 64 },
              r4.status,
            ))

-- The switch on the type of the header.
unfoldable pub read_chunk : Posix → BackupDataReader → BackupDataReader × ℕ
read_chunk sys r =
    if header_type r == backup_header_entity_v1
    then read_entity_key sys r
    else (record r { status = sys.einval }, sys.einval)

-- The new state, `*done` and the result. The bytes read cover the front of m_header.
unfoldable pub read_next_header : Posix → BackupDataReader → BackupDataReader × Bool × ℕ
read_next_header sys r =
    if not (r.status == 0)
    then (r, r.done, r.status)
    else (let (r1, err) = skip_padding sys r in
        if err == sys.eio
        then (record r1 { done = true }, true, 0)
        else if not (err == 0)
        then (r1, r.done, err)
        else (let (amt, bytes) = read_bytes sys sizeof_entity_header r1 in
            let r2 = record (advance bytes r1) {
              done = whole amt 0;
              header = bytes ++ drop (length bytes) r1.header;
            } in
            if whole amt 0
            then (r2, true, 0)
            else if not (whole amt sizeof_entity_header)
            then (let r3 = wrong_size sys amt r2 in (r3, false, r3.status))
            else (let r4 = record r2 { position = (r2.position + sizeof_entity_header) % 2 ^ 64 } in
                let (r5, ret) = read_chunk sys r4 in (r5, false, ret))))

unfoldable pub has_entities : BackupDataReader → Bool
has_entities r = r.status == 0 && header_type r == backup_header_entity_v1

-- The result, the key and the size; the latter two are only set with NO_ERROR.
unfoldable pub read_entity_header : Posix → BackupDataReader → ℕ × Option (List ℕ × ℕ)
read_entity_header sys r =
    if not (r.status == 0)
    then (r.status, none)
    else if not (header_type r == backup_header_entity_v1)
    then (sys.einval, none)
    else (0, some (r.key, data_size r))

-- The position that `lseek` returns is converted to `int`; a failure leaves the status.
unfoldable pub skip_entity_data : Posix → BackupDataReader → BackupDataReader × ℕ
skip_entity_data sys r =
    if not (r.status == 0)
    then (r, r.status)
    else if not (header_type r == backup_header_entity_v1)
    then (r, sys.einval)
    else if ltb 0 (data_size r) && ltb (data_size r) (2 ^ 31)
    then (if sys.seekable r.data_end_pos && not (r.data_end_pos % 2 ^ 32 == 2 ^ 32 - 1)
        then skip_padding_or_return sys
            (record r { offset = r.data_end_pos; position = widen (r.data_end_pos % 2 ^ 32) })
            (λ r1. (r1, 0))
        else (r, sys.errno))
    else skip_padding_or_return sys r (λ r1. (r1, 0))

-- `remaining`, an `int`.
abbrev pub remaining : BackupDataReader → ℤ
remaining r = signed32 (sub64 r.data_end_pos r.position % 2 ^ 32)

-- `if (((int)size) > remaining) size = remaining;`
unfoldable pub clamp_size : ℤ → ℕ → ℕ
clamp_size left size = if ltb_ℤ left (signed32 (size % 2 ^ 32)) then pos_part left else size

-- What ReadEntityData makes of its `read`.
unfoldable pub take_data :
    Posix → Option ℕ × List ℕ → BackupDataReader → BackupDataReader × Option ℕ × List ℕ
take_data sys (none, bytes) r = (record r { status = sys.errno }, none, [])
take_data sys (some k, bytes) r =
    let r1 = record (advance bytes r) { position = (r.position + k) % 2 ^ 64 } in
    let r2 = if k == 0 then record r1 { status = sys.eio; done = true } else r1 in
    (r2, some k, bytes)

-- ReadEntityData(data, size): the result, `none` for -1, and the bytes stored.
unfoldable pub read_entity_data :
    Posix → ℕ → BackupDataReader → BackupDataReader × Option ℕ × List ℕ
read_entity_data sys size r =
    if not (r.status == 0)
    then (r, none, [])
    else if not (ltb_ℤ (pos 0) (remaining r))
    then (r, some 0, [])
    else take_data sys (read_bytes sys (clamp_size (remaining r) size) r) r
