-- ===== src/BackupData.antt =====
-- The entity stream of a backup: BackupDataWriter and BackupDataReader of
-- libs/androidfw/BackupData.cpp and include/androidfw/BackupHelpers.h. A file is a list of bytes;
-- what write, read, lseek, errno and String8::lockBuffer answer is the parameter Posix. A status is
-- a number, NO_ERROR is 0; an `int` that is read from the file is its 32-bit pattern.
pub mod Writer
pub mod Reader
pub mod Format
pub mod ReadParts
pub mod ReadBack
pub mod RoundTrip
pub mod Poison
pub mod Tests
use f2ut_platform_frameworks.Prelude.{
  Bool, List, Option, [], false, get_or, if◌then◌else◌, ltb, none, some, true, ℕ, ◌%◌, ◌*◌, ◌+◌,
  ◌++◌, ◌-◌, ◌/◌, ◌==◌, ◌^◌, ◌∷◌,
}

pub record Posix : Type 0 where
  -- What `write` and `read` return at a position, for a number of bytes that could be moved;
  -- `none` is -1.
  pub returns : ℕ → ℕ → Option ℕ
  pub errno : ℕ
  -- Whether `lseek` to a position succeeds.
  pub seekable : ℕ → Bool
  -- Whether String8::lockBuffer gets its memory.
  pub lock_buffer : ℕ → Bool
  pub eio : ℕ
  pub einval : ℕ
  pub enomem : ℕ

-- BACKUP_HEADER_ENTITY_V1, "Data" in little-endian order
abbrev pub backup_header_entity_v1 : ℕ
backup_header_entity_v1 = 0x61746144

-- sizeof(entity_header_v1)
abbrev pub sizeof_entity_header : ℕ
sizeof_entity_header = 12

-- padding_extra: ROUND_UP[n % 4]
unfoldable pub padding_extra : ℕ → ℕ
padding_extra n = get_or (0 ∷ 3 ∷ 2 ∷ 1 ∷ []) (n % 4) 0

-- Whether a call moved as many bytes as were asked for.
abbrev pub whole : Option ℕ → ℕ → Bool
whole none n = false
whole (some k) n = k == n

-- tolel and the `int` in memory.
unfoldable pub le32 : ℕ → List ℕ
le32 v = v % 256 ∷ v / 256 % 256 ∷ v / 65536 % 256 ∷ v / 16777216 % 256 ∷ []

-- The `int` at an offset of the bytes in memory.
unfoldable pub le32_at : ℕ → List ℕ → ℕ
le32_at i bytes =
    get_or bytes i 0
    + get_or bytes (i + 1) 0 * 256
    + get_or bytes (i + 2) 0 * 65536
    + get_or bytes (i + 3) 0 * 16777216

-- An `int` widened to 64 bits.
unfoldable pub widen : ℕ → ℕ
widen w = if ltb w (2 ^ 31) then w else w + (2 ^ 64 - 2 ^ 32)
