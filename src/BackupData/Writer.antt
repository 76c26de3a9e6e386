-- ===== src/BackupData/Writer.antt =====
-- BackupDataWriter of libs/androidfw/BackupData.cpp.
use f2ut_platform_frameworks.Prelude.{
  List, [], if◌then◌else◌, length, ltb, none, not, replicate, some, take, ℕ, ◌+◌, ◌++◌, ◌==◌, ◌∷◌,
}
use f2ut_platform_frameworks.BackupData.{Posix, backup_header_entity_v1, le32, padding_extra}

-- `out` is what the file holds since the object was made.
pub record BackupDataWriter : Type 0 where
  pub out : List ℕ
  pub status : ℕ
  pub pos : ℕ
  pub entity_count : ℕ
  pub key_prefix : List ℕ

-- The constructor, at the position that `lseek` gives.
unfoldable pub new_writer : ℕ → BackupDataWriter
new_writer pos = record { out = []; status = 0; pos = pos; entity_count = 0; key_prefix = [] }

-- `amt = write(m_fd, bytes)`, the return with errno if it was not whole, and else the step of
-- m_pos and what follows.
unfoldable pub write_or_return :
    Posix
    → List ℕ
    → BackupDataWriter
    → (BackupDataWriter → BackupDataWriter × ℕ)
    → BackupDataWriter × ℕ
write_or_return sys bytes w rest = elim (sys.returns (length w.out) (length bytes)) [
  | none ↦ (record w { status = sys.errno }, sys.errno)
  | some amt ↦
      let w' = record w { out = w.out ++ take amt bytes } in
      if amt == length bytes
      then rest (record w' { pos = w.pos + amt })
      else (record w' { status = sys.errno }, sys.errno)
]

-- `n` is converted from m_pos to `int`, which leaves its remainder by 4.
unfoldable pub write_padding_for : Posix → ℕ → BackupDataWriter → BackupDataWriter × ℕ
write_padding_for sys n w =
    if ltb 0 (padding_extra n)
    then write_or_return sys (replicate (padding_extra n) 0xbc) w (λ w'. (w', 0))
    else (w, 0)

-- "prefix:key", or the key alone.
unfoldable pub full_key : List ℕ → List ℕ → List ℕ
full_key prefix key = if ltb 0 (length prefix) then prefix ++ (b':' ∷ key) else key

-- The header of three `int`s.
unfoldable pub entity_header : ℕ → ℕ → List ℕ
entity_header key_len data_size = le32 backup_header_entity_v1 ++ (le32 key_len ++ le32 data_size)

-- The header's fields are the low 32 bits of the sizes.
unfoldable pub write_entity_header : Posix → List ℕ → ℕ → BackupDataWriter → BackupDataWriter × ℕ
write_entity_header sys key data_size w =
    if not (w.status == 0)
    then (w, w.status)
    else (let (w1, amt) = write_padding_for sys w.pos w in
        if not (amt == 0)
        then (w1, amt)
        else (let k = full_key w1.key_prefix key in
            write_or_return sys (entity_header (length k) data_size) w1 λ w2.
              write_or_return sys (k ++ (0 ∷ [])) w2 λ w3.
                let (w4, ret) = write_padding_for sys (length k + 1) w3 in
                (record w4 { entity_count = w4.entity_count + 1 }, ret)))

unfoldable pub write_entity_data : Posix → List ℕ → BackupDataWriter → BackupDataWriter × ℕ
write_entity_data sys bytes w =
    if not (w.status == 0) then (w, w.status) else write_or_return sys bytes w (λ w'. (w', 0))

unfoldable pub set_key_prefix : List ℕ → BackupDataWriter → BackupDataWriter
set_key_prefix prefix w = record w { key_prefix = prefix }
