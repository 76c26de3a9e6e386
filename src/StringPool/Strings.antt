-- ===== src/StringPool/Strings.antt =====
-- ResStringPool::stringAt, string8At and styleAt (libs/androidfw/ResourceTypes.cpp).
use f2ut_platform_frameworks.Prelude.{
  List, Option, false, if◌then◌else◌, leb, ltb, none, some, true, ℕ, ◌%◌, ◌&&◌, ◌*◌, ◌+◌, ◌-◌, ◌/◌,
  ◌==◌, ◌>>=◌, ◌^◌, Bool,
}
use f2ut_platform_frameworks.Prelude.Words.{sub32}
use f2ut_platform_frameworks.StringPool.{
  Block, Pool, Status, bad_type, is_utf8, no_error, no_init, read16, read32, read8, read_bytes,
}

-- What libutils makes of UTF-8: utf8_to_utf16_length, `none` where it is negative, and
-- utf8_to_utf16.
pub record Unicode : Type 0 where
  pub utf16_length : List ℕ → Option ℕ
  pub utf16 : List ℕ → List ℕ

-- decodeLength of bytes: where the string goes on, and the length.
unfoldable pub decode_length8 : Block → ℕ → Option (ℕ × ℕ)
decode_length8 d a = read8 d a >>= λ len.
    let longer = read8 d (a + 1) >>= λ low. some (a + 1 + 1, (len - 0x80) * 2 ^ 8 + low) in
    if leb 0x80 len then longer else some (a + 1, len)

-- decodeLength of 16-bit characters.
unfoldable pub decode_length16 : Block → ℕ → Option (ℕ × ℕ)
decode_length16 d a = read16 d a >>= λ len.
    let longer = read16 d (a + 2) >>= λ low. some (a + 2 + 2, (len - 0x8000) * 2 ^ 16 + low) in
    if leb 0x8000 len then longer else some (a + 2, len)

abbrev pub succeeded : Status → Bool
succeeded no_error = true
succeeded no_init = false
succeeded bad_type = false

-- The two lengths of an UTF-8 string, its place, and the check against the pool's size.
unfoldable pub find8 : Pool → ℕ → Option (Option (ℕ × ℕ × ℕ))
find8 p off =
    let found = decode_length8 p.block (p.strings + off) >>= λ (a, len).
    decode_length8 p.block a >>= λ (start, enc_len). some (
      if ltb ((start + enc_len - p.strings) % 2 ^ 32) p.string_pool_size
      then some (start, enc_len, len)
      else none) in
    if ltb off (sub32 p.string_pool_size 1) then found else some none

-- string8At: where the string is and its length.
unfoldable pub string8_at : Pool → ℕ → Option (Option (ℕ × ℕ))
string8_at p idx =
    let found = read32 p.block (p.entries + idx * 4) >>= λ off.
    find8 p off >>= λ found. some (found >>= λ (start, enc_len, len). some (start, len)) in
    if succeeded p.error && ltb idx p.header.string_count
    then if is_utf8 p.header then found else some none
    else some none

-- A string of 16-bit characters: in the pool, or in the cache.
pub data Chars : Type 0 where
  stored : ℕ → ℕ → Chars
  decoded : List ℕ → ℕ → Chars

-- The branch for UTF-16.
unfoldable pub find16 : Pool → ℕ → Option (Option Chars)
find16 p off =
    let found = decode_length16 p.block (p.strings + off * 2) >>= λ (start, len). some (
      if ltb (((start - p.strings) / 2 + len) % 2 ^ 32) p.string_pool_size
      then some (stored start len)
      else none) in
    if ltb off (sub32 p.string_pool_size 1) then found else some none

-- A string that is not in the cache is decoded, and kept there.
unfoldable pub decode : Unicode → Pool → ℕ → ℕ → List ℕ → Pool × Option Chars
decode u p idx len bytes = elim (u.utf16_length bytes) [
  | none ↦ (p, none)
  | some actual_len ↦
      if actual_len == len
      then (
        record p { cache = λ i. if i == idx then some (u.utf16 bytes) else p.cache i },
        some (decoded (u.utf16 bytes) len),
      )
      else (p, none)
]

-- The branch for UTF-8.
unfoldable pub at_place : Unicode → Pool → ℕ → Option (ℕ × ℕ × ℕ) → Option (Pool × Option Chars)
at_place u p idx none = some (p, none)
at_place u p idx (some (start, enc_len, len)) = elim (p.cache idx) [
  | some chars ↦ some (p, some (decoded chars len))
  | none ↦ read_bytes p.block start enc_len >>= λ bytes. some (decode u p idx len bytes)
]

-- stringAt: the pool, and the string or NULL.
unfoldable pub string_at : Unicode → Pool → ℕ → Option (Pool × Option Chars)
string_at u p idx =
    let found = read32 p.block (p.entries + idx * 4) >>= λ entry.
    let of_bytes = find8 p entry >>= λ place. at_place u p idx place in
    let of_words = find16 p (entry / 2) >>= λ chars. some (p, chars) in
    if is_utf8 p.header then of_bytes else of_words in
    if succeeded p.error && ltb idx p.header.string_count then found else some (p, none)

-- styleAt: where the spans begin.
unfoldable pub style_at : Pool → ℕ → Option (Option ℕ)
style_at p idx =
    let found = read32 p.block (p.entry_styles + idx * 4) >>= λ entry.
    some (if ltb (entry / 4) p.style_pool_size then some (p.styles + entry / 4 * 4) else none) in
    if succeeded p.error && ltb idx p.header.style_count then found else some none
