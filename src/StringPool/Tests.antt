-- ===== src/StringPool/Tests.antt =====
-- Pools of libs/androidfw/ResourceTypes.cpp on concrete bytes.
use f2ut_platform_frameworks.Prelude.{
  List, Option, [], arith, get_or, length, none, refl, some, sym, ◌∙◌, subst, ℕ, ◌*◌, ◌≡◌, ◌⊎◌, ◌∷◌,
}
use f2ut_platform_frameworks.Prelude.Words.{sub32, sub64}
use f2ut_platform_frameworks.StringPool.{
  Block, Header, Pool, Status, is_utf8, no_error, no_init, read16, read32, read8, read_bytes,
  read_header,
}
use f2ut_platform_frameworks.StringPool.Setting.{
  char_size, check_pool, refuse, set_pool_size, set_strings, set_styles, set_to, uninit,
  unterminated,
}
use f2ut_platform_frameworks.StringPool.Strings.{
  Chars, Unicode, at_place, decode, decode_length8, decoded, find8, string8_at, string_at,
}
use f2ut_platform_frameworks.StringPool.Sound.{IsSound, set_to-IsSound}
use f2ut_platform_frameworks.StringPool.Inside.{Answers, Answers8, IsOverrun, string_at-inside}
use f2ut_platform_frameworks.StringPool.Cached.{IsCoherent, answer, string_at-cached, uncached}

-- A pool of one UTF-8 string, with the given flags, entry and 8 bytes of strings.
abbrev file : ℕ → ℕ → List ℕ → Block
file flags entry strings = record {
  size = 40;
  byte = λ i.
      get_or
        (1 ∷ 0 ∷ 28 ∷ 0 ∷ 40 ∷ 0 ∷ 0 ∷ 0 ∷ 1 ∷ 0 ∷ 0 ∷ 0 ∷ 0 ∷ 0 ∷ 0 ∷ 0 ∷ 0 ∷ flags ∷ 0 ∷ 0 ∷ 32
          ∷ 0 ∷ 0 ∷ 0 ∷ 0 ∷ 0 ∷ 0 ∷ 0 ∷ entry ∷ 0 ∷ 0 ∷ 0 ∷ strings)
        i 0;
}

abbrev header : ℕ → Header
header flags = record {
  header_size = 28;
  size = 40;
  string_count = 1;
  style_count = 0;
  flags = flags * 256;
  strings_start = 32;
  styles_start = 0;
}

abbrev hi : Block
hi = file 1 0 (2 ∷ 2 ∷ 104 ∷ 105 ∷ 0 ∷ 0 ∷ 0 ∷ 0 ∷ [])

-- A string that is said to begin at the last byte but one, with a length of two bytes.
abbrev cut : Block
cut = file 1 6 (2 ∷ 2 ∷ 104 ∷ 105 ∷ 0 ∷ 0 ∷ 128 ∷ 0 ∷ [])

-- Characters of 16 bits, and no 0 at their end.
abbrev endless : Block
endless = file 0 0 (2 ∷ 0 ∷ 104 ∷ 0 ∷ 105 ∷ 0 ∷ 106 ∷ 0 ∷ [])

abbrev pool_of : Status → Block → ℕ → ℕ → Pool
pool_of error block flags pool_size = record {
  error = error;
  block = block;
  header = header flags;
  size = 40;
  entries = 28;
  entry_styles = 0;
  strings = 32;
  string_pool_size = pool_size;
  styles = 0;
  style_pool_size = 0;
  cache = λ i. none;
}

-- A pool before setTo.
abbrev blank : Pool
blank = pool_of no_init hi 1 0

-- Text of ASCII only.
abbrev ascii : Unicode
ascii = record { utf16_length = λ bytes. some (length bytes); utf16 = λ bytes. bytes }

hi-header : read_header hi ≡ some (header 1)
unfolding read_header read32 read16 read8
hi-header = refl

set_to-hi : set_to blank hi ≡ some (pool_of no_error hi 1 8)
unfolding set_to read_header read32 read16 read8 uninit refuse set_strings set_pool_size sub64
    char_size is_utf8 check_pool unterminated set_styles
set_to-hi = refl

set_to-IsSound_example : (q : Pool) × (set_to blank hi ≡ some q) × (q.error ≡ no_error → IsSound q)
set_to-IsSound_example =
    set_to-IsSound blank hi (header 1) (omega arith) (omega arith) hi-header (omega arith)

hi-IsSound : no_error ≡ no_error → IsSound (pool_of no_error hi 1 8)
hi-IsSound =
    let (q, e, sound) = set_to-IsSound_example in
    let both : some q ≡ some (pool_of no_error hi 1 8) = sym e ∙ set_to-hi in
    let same : q ≡ pool_of no_error hi 1 8 = cc in
    subst (λ p. p.error ≡ no_error → IsSound p) same sound

string_at-inside_example :
    (Answers ascii (pool_of no_error hi 1 8) 0 (string_at ascii (pool_of no_error hi 1 8) 0)
      × Answers8 (pool_of no_error hi 1 8) 0 (string8_at (pool_of no_error hi 1 8) 0))
    ⊎ IsOverrun (pool_of no_error hi 1 8) 0
string_at-inside_example =
    string_at-inside ascii (pool_of no_error hi 1 8) 0 hi-IsSound (omega arith)

empty-IsCoherent : IsCoherent ascii (pool_of no_error hi 1 8)
empty-IsCoherent i chars e = cc

string_at-cached_example :
    (answer (string_at ascii (pool_of no_error hi 1 8) 0)
      ≡ answer (string_at ascii (uncached (pool_of no_error hi 1 8)) 0))
    × ((q : Pool) (chars : Option Chars)
        → string_at ascii (pool_of no_error hi 1 8) 0 ≡ some (q, chars)
        → IsCoherent ascii q)
string_at-cached_example = string_at-cached ascii (pool_of no_error hi 1 8) 0 empty-IsCoherent

string_at-hi :
    answer (string_at ascii (pool_of no_error hi 1 8) 0) ≡ some (some (decoded (104 ∷ 105 ∷ []) 2))
unfolding string_at read32 read16 read8 is_utf8 find8 decode_length8 sub32 at_place read_bytes
    decode
string_at-hi = refl

-- setTo accepts a string whose lengths are read past the end of the block.
set_to-cut : set_to blank cut ≡ some (pool_of no_error cut 1 8)
unfolding set_to read_header read32 read16 read8 uninit refuse set_strings set_pool_size sub64
    char_size is_utf8 check_pool unterminated set_styles
set_to-cut = refl

string8_at-cut : string8_at (pool_of no_error cut 1 8) 0 ≡ none
unfolding string8_at read32 read16 read8 is_utf8 find8 decode_length8 sub32
string8_at-cut = refl

-- setTo accepts characters of 16 bits that do not end with 0.
set_to-endless : set_to blank endless ≡ some (pool_of no_error endless 0 4)
unfolding set_to read_header read32 read16 read8 uninit refuse set_strings set_pool_size sub64
    char_size is_utf8 check_pool unterminated set_styles
set_to-endless = refl
