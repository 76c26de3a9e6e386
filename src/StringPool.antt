-- ===== src/StringPool.antt =====
-- ResStringPool of libs/androidfw/ResourceTypes.cpp and include/androidfw/ResourceTypes.h: the pool
-- of strings of a resource file, over the bytes of that file. Addresses are offsets from the pool's
-- first byte; a read that is not wholly within the block is `none`, as is all that rests on it. The
-- host is little-endian with 64-bit sizes, its addresses do not wrap, and it has enough memory.
pub mod Setting
pub mod Strings
pub mod Reads
pub mod Sound
pub mod Lengths
pub mod Places
pub mod Inside
pub mod Cached
pub mod Tests
use f2ut_platform_frameworks.Prelude.{
  Bool, List, Option, [], bit_and, if◌then◌else◌, leb, ltb, none, not, some, suc, zero, ℕ, ◌%◌, ◌*◌,
  ◌+◌, ◌/◌, ◌==◌, ◌>>=◌, ◌∷◌,
}

-- The bytes at `data`, and how many there are.
pub record Block : Type 0 where
  pub size : ℕ
  pub byte : ℕ → ℕ

unfoldable pub read8 : Block → ℕ → Option ℕ
read8 d a = if ltb a d.size then some (d.byte a % 256) else none

unfoldable pub read16 : Block → ℕ → Option ℕ
read16 d a = read8 d a >>= λ b0. read8 d (a + 1) >>= λ b1. some (b0 + b1 * 256)

unfoldable pub read32 : Block → ℕ → Option ℕ
read32 d a = read16 d a >>= λ h0. read16 d (a + 2) >>= λ h1. some (h0 + h1 * 65536)

-- `n` bytes.
unfoldable pub read_bytes : Block → ℕ → ℕ → Option (List ℕ)
read_bytes d a zero = some []
read_bytes d a (suc n) = read8 d a >>= λ b. read_bytes d (a + 1) n >>= λ bs. some (b ∷ bs)

-- ResStringPool_header, with the fields of its ResChunk_header that are used; it is read at once.
pub record Header : Type 0 where
  pub header_size : ℕ
  pub size : ℕ
  pub string_count : ℕ
  pub style_count : ℕ
  pub flags : ℕ
  pub strings_start : ℕ
  pub styles_start : ℕ

unfoldable pub read_header : Block → Option Header
read_header d = read16 d 2 >>= λ header_size. read32 d 4 >>= λ size. read32 d 8 >>= λ string_count.
    read32 d 12 >>= λ style_count. read32 d 16 >>= λ flags. read32 d 20 >>= λ strings_start.
    read32 d 24 >>= λ styles_start. some (record {
      header_size = header_size;
      size = size;
      string_count = string_count;
      style_count = style_count;
      flags = flags;
      strings_start = strings_start;
      styles_start = styles_start;
    })

-- UTF8_FLAG
abbrev pub utf8_flag : ℕ
utf8_flag = 0x100

unfoldable pub is_utf8 : Header → Bool
is_utf8 h = not (bit_and h.flags utf8_flag == 0)

pub data Status : Type 0 where
  no_error : Status
  no_init : Status
  bad_type : Status

-- The members of a ResStringPool. mHeader is the block and its header, mEntries, mEntryStyles,
-- mStrings and mStyles are offsets, and the table mCache is a function, with `none` for NULL.
pub record Pool : Type 0 where
  pub error : Status
  pub block : Block
  pub header : Header
  pub size : ℕ
  pub entries : ℕ
  pub entry_styles : ℕ
  pub strings : ℕ
  pub string_pool_size : ℕ
  pub styles : ℕ
  pub style_pool_size : ℕ
  pub cache : ℕ → Option (List ℕ)
