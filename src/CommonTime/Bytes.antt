-- ===== src/CommonTime/Bytes.antt =====
-- The field macros of libs/common_time/common_time_server_packets.cpp: writing a field to a buffer
-- and reading it back, most significant byte first.
use f2ut_platform_frameworks.Prelude.{
  ltb, ℕ, ◌+◌, ◌*◌, ◌/◌, ◌%◌, ◌^◌, ◌<◌, ◌≡◌, Option, none, some, List, [], ◌∷◌, ◌++◌, arith, leb,
  if◌then◌else◌, ◌>>=◌,
}
use mathlib.Core.List.{append_assoc}
use native.Mathlib.Nat.{add_assoc}

-- htons, htonl and htonq, as the bytes in memory.
unfoldable pub be16 : ℕ → List ℕ
be16 v = v / 256 % 256 ∷ v % 256 ∷ []

unfoldable pub be32 : ℕ → List ℕ
be32 v = be16 (v / 2 ^ 16) ++ be16 (v % 2 ^ 16)

unfoldable pub be64 : ℕ → List ℕ
be64 v = be32 (v / 2 ^ 32) ++ be32 (v % 2 ^ 32)

-- The offset, and the bytes written so far.
abbrev pub Writer : Type 0
Writer = ℕ × List ℕ

-- SERIALIZE_FIELD: `size` bytes at the offset, unless the buffer of `cap` bytes is too short.
unfoldable pub put : ℕ → ℕ → List ℕ → Writer → Option Writer
put cap size bytes w = if leb (w.0 + size) cap then some (w.0 + size, w.1 ++ bytes) else none

-- DESERIALIZE_FIELD: the value, and the bytes behind it.
unfoldable pub get16 : List ℕ → Option (ℕ × List ℕ)
get16 (a ∷ b ∷ rest) = some (a * 256 + b, rest)
get16 _ = none

unfoldable pub get32 : List ℕ → Option (ℕ × List ℕ)
get32 bytes = do (hi, r) ← get16 bytes; (lo, rest) ← get16 r; some (hi * 2 ^ 16 + lo, rest)

unfoldable pub get64 : List ℕ → Option (ℕ × List ℕ)
get64 bytes = do (hi, r) ← get32 bytes; (lo, rest) ← get32 r; some (hi * 2 ^ 32 + lo, rest)

pub get16-be16 : (v : ℕ) (rest : List ℕ) → v < 2 ^ 16 → get16 (be16 v ++ rest) ≡ some (v, rest)
unfolding get16 be16
get16-be16 v rest h = ground arith

pub get32-be32 : (v : ℕ) (rest : List ℕ) → v < 2 ^ 32 → get32 (be32 v ++ rest) ≡ some (v, rest)
unfolding get16 get32 be16 be32
get32-be32 v rest h = ground arith

pub get64-be64 : (v : ℕ) (rest : List ℕ) → v < 2 ^ 64 → get64 (be64 v ++ rest) ≡ some (v, rest)
unfolding get16 get32 get64 be16 be32 be64
get64-be64 v rest h = ground arith

-- Two fields in a row are one longer field.
pub put-put :
    (max m n : ℕ) (a b : List ℕ) (w : Writer)
    → (put max m a w >>= λ w'. put max n b w') ≡ put max (m + n) (a ++ b) w
unfolding put
put-put max m n a b w = ground (arith, append_assoc w.1 a b, add_assoc w.0 m n)

-- So too where the second is written if the offset is positive.
pub put-put_positive :
    (max m n : ℕ) (a b : List ℕ) (w : Writer)
    → 0 < m
    → (put max m a w >>= λ w'. if ltb 0 w'.0 then put max n b w' else some w')
      ≡ put max (m + n) (a ++ b) w
unfolding put
put-put_positive max m n a b w h = ground (arith, append_assoc w.1 a b, add_assoc w.0 m n)
