-- ===== src/StringPool/Setting.antt =====
-- ResStringPool::setTo and uninit (libs/androidfw/ResourceTypes.cpp).
use f2ut_platform_frameworks.Prelude.{
  Bool, Option, bit_and, false, if◌then◌else◌, leb, ltb, none, not, some, ℕ, ◌%◌, ◌&&◌, ◌*◌, ◌+◌,
  ◌-◌, ◌/◌, ◌==◌, ◌>>=◌, ◌^◌, ◌||◌,
}
use f2ut_platform_frameworks.Prelude.Words.{sub64}
use f2ut_platform_frameworks.StringPool.{
  Block, Header, Pool, bad_type, is_utf8, no_error, no_init, read16, read32, read8, read_header,
  utf8_flag,
}

-- uninit
unfoldable pub uninit : Pool → Pool
uninit p = record p { error = no_init; cache = λ i. none }

-- `return (mError=BAD_TYPE)`
unfoldable pub refuse : Pool → Option Pool
refuse p = some (record p { error = bad_type })

-- charSize
unfoldable pub char_size : Header → ℕ
char_size h = if is_utf8 h then 1 else 2

-- Whether the last character is found not to be 0. The second test is written as in the code: `!`
-- binds to the flags alone.
unfoldable pub unterminated : Block → Header → ℕ → Option Bool
unterminated d h pool_size =
    let of_bytes = read8 d (h.strings_start + (pool_size - 1)) >>= λ c. some (not (c == 0)) in
    let of_words = read16 d (h.strings_start + (pool_size - 1) * 2) >>= λ c. some (not (c == 0)) in
    if is_utf8 h
    then of_bytes
    else if bit_and (if h.flags == 0 then 1 else 0) utf8_flag == 0
    then some false
    else of_words

-- The checks that follow the computation of mStringPoolSize.
unfoldable pub check_pool : Pool → ℕ → (Pool → Option Pool) → Option Pool
check_pool p pool_size next =
    let p = record p { strings = p.header.strings_start; string_pool_size = pool_size } in
    if pool_size == 0
    then refuse p
    else unterminated p.block p.header pool_size >>= λ bad. if bad then refuse p else next p

-- `if (mHeader->styleCount == 0)`
unfoldable pub set_pool_size : Pool → (Pool → Option Pool) → Option Pool
set_pool_size p next =
    let h = p.header in
    let placed = record p { strings = h.strings_start } in
    let unstyled = check_pool p (sub64 p.size h.strings_start / char_size h % 2 ^ 32) next in
    let styled = check_pool p ((h.styles_start - h.strings_start) / char_size h) next in
    if h.style_count == 0
    then unstyled
    else if leb (sub64 p.size 2) h.styles_start
    then refuse placed
    else if leb h.styles_start h.strings_start
    then refuse placed
    else styled

-- `if (mHeader->stringCount > 0)`
unfoldable pub set_strings : Pool → (Pool → Option Pool) → Option Pool
set_strings p next =
    let h = p.header in
    if h.string_count == 0
    then next (record p { strings = 0; string_pool_size = 0 })
    else if ltb (h.string_count * 4 % 2 ^ 64) h.string_count
        || ltb p.block.size (h.header_size + h.string_count * 4 % 2 ^ 64)
    then refuse p
    else if leb (sub64 p.size 2) h.strings_start
    then refuse p
    else set_pool_size p next

-- Whether the last three words of the styles are END.
unfoldable pub styles_end : Block → ℕ → Option Bool
styles_end d a = read32 d a >>= λ w0. read32 d (a + 4) >>= λ w1.
    read32 d (a + 8) >>= λ w2. some (w0 == 0xFFFFFFFF && (w1 == 0xFFFFFFFF && w2 == 0xFFFFFFFF))

-- A size as an `int`, compared with an offset.
unfoldable pub above_int : ℕ → ℕ → Bool
above_int offset size =
    let low = size % 2 ^ 32 in if leb (2 ^ 31) low then leb 0 offset else ltb low offset

-- `if (mHeader->styleCount > 0)`
unfoldable pub set_styles : Pool → Option Pool
set_styles p =
    let h = p.header in
    let entry_styles = p.entries + h.string_count * 4 in
    let pool_size = (h.size - h.styles_start) / 4 in
    let p1 = record p { entry_styles = entry_styles } in
    let p2 = record p1 { styles = h.styles_start } in
    let p3 = record p2 { style_pool_size = pool_size } in
    if h.style_count == 0
    then some (record p { error = no_error; entry_styles = 0; styles = 0; style_pool_size = 0 })
    else if above_int entry_styles p.block.size
    then refuse p1
    else if leb h.size h.styles_start
    then refuse p2
    else styles_end p.block (sub64 (h.styles_start + pool_size * 4) 12) >>= λ ended.
        if not ended then refuse p3 else some (record p3 { error = no_error })

-- setTo, where copying the data changes nothing.
unfoldable pub set_to : Pool → Block → Option Pool
set_to p d =
    let checked = read_header d >>= λ h.
    let p = record (uninit p) { block = d; header = h } in
    if ltb h.size h.header_size || ltb d.size h.size
    then refuse p
    else set_strings (record p { size = h.size; entries = h.header_size }) set_styles in
    if d.size == 0 then refuse p else checked
