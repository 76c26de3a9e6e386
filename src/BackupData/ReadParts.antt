-- ===== src/BackupData/ReadParts.antt =====
-- What BackupDataReader (libs/androidfw/BackupData.cpp) does at parts of the format, when no call
-- of `read` fails: the padding, the header's fields, and the key.
use f2ut_platform_frameworks.Prelude.{
  Bool-cases, List, [], ap, arith, drop, drop-append, drop-drop, get_or, inl, inr, length,
  length-append, length-replicate, ltb, refl, replicate, some, suc, sym, take-append, true, zero, ℕ,
  ◌%◌, ◌&&◌, ◌+◌, ◌++◌, ◌-◌, ◌<◌, ◌==◌, ◌^◌, ◌∙◌, ◌∷◌, ◌≡◌,
}
use f2ut_platform_frameworks.BackupData.{
  Posix, backup_header_entity_v1, le32, le32_at, padding_extra, widen,
}
use f2ut_platform_frameworks.BackupData.Format.{pad}
use f2ut_platform_frameworks.BackupData.Reader.{
  BackupDataReader, advance, available, read_bytes, read_entity_key, skip_padding,
  skip_padding_or_return, whole_int,
}
use f2ut_platform_frameworks.BackupData.Writer.{entity_header}
use native.Mathlib.Nat.{add-zero}

-- The bytes that are still to be read.
abbrev pub unread : BackupDataReader → List ℕ
unread r = drop r.offset r.contents

-- `n` bytes further on.
abbrev pub forward : ℕ → BackupDataReader → BackupDataReader
forward n r = record r { offset = r.offset + n; position = r.position + n }

pub forward-zero : (r : BackupDataReader) → forward 0 r ≡ r
forward-zero r = λ i. record r { offset = add-zero r.offset i; position = add-zero r.position i }

pub small_padding : (k : ℕ) → k < 4 → get_or (0 ∷ 3 ∷ 2 ∷ 1 ∷ []) k 0 ≡ (4 - k) % 4
small_padding zero h = refl
small_padding (suc zero) h = refl
small_padding (suc (suc zero)) h = refl
small_padding (suc (suc (suc zero))) h = refl
small_padding (suc (suc (suc (suc k)))) h = absurd (omega arith)

pub padding_extra_closed : (n : ℕ) → padding_extra n ≡ (4 - n % 4) % 4
unfolding padding_extra
padding_extra_closed n = small_padding (n % 4) (omega arith)

-- Behind an aligned header of 12 bytes, a length pads as a position does.
pub padding_extra_aligned :
    (p m q : ℕ) → q ≡ p + padding_extra p + 12 + m → padding_extra q ≡ padding_extra m
padding_extra_aligned p m q e =
    omega (arith, padding_extra_closed p, padding_extra_closed m, padding_extra_closed q)

pub length-pad : (n : ℕ) → length (pad n) ≡ padding_extra n
length-pad n = length-replicate (padding_extra n) 0xbc

module _ (a b : ℕ) where
  abbrev pub two_ints : List ℕ
  two_ints = entity_header a b

  pub entity_header-type : le32_at 0 two_ints ≡ backup_header_entity_v1
  unfolding le32_at entity_header le32
  entity_header-type = refl

  pub entity_header-key_len : a < 2 ^ 32 → le32_at 4 two_ints ≡ a
  unfolding le32_at entity_header le32
  entity_header-key_len h = omega arith

  pub entity_header-data_size : b < 2 ^ 32 → le32_at 8 two_ints ≡ b
  unfolding le32_at entity_header le32
  entity_header-data_size h = omega arith

  pub length-entity_header : length two_ints ≡ 12
  unfolding entity_header le32
  length-entity_header = refl

-- The reader behind the key of an entity, and behind its padding.
abbrev pub keyed : List ℕ → BackupDataReader → BackupDataReader
keyed k r = record (forward (length k + 1) r) { entity_count = r.entity_count + 1; key = k }

abbrev pub padded : List ℕ → ℕ → BackupDataReader → BackupDataReader
padded k d r = record (forward (padding_extra (length k + 1)) (keyed k r)) {
  data_end_pos = r.position + (length k + 1) + padding_extra (length k + 1) + d;
}

module _ (sys : Posix) (moves : (at n : ℕ) → sys.returns at n ≡ some n) where
  pub available_all :
      (n : ℕ) (xs ys : List ℕ) (r : BackupDataReader)
      → unread r ≡ xs ++ ys
      → n ≡ length xs
      → available n r ≡ n
  unfolding available
  available_all n xs ys r left e =
      let size = ap length left ∙ length-append xs ys in ground (arith, size)

  pub read_bytes_whole :
      (n : ℕ) (xs ys : List ℕ) (r : BackupDataReader)
      → unread r ≡ xs ++ ys
      → n ≡ length xs
      → read_bytes sys n r ≡ (some n, xs)
  unfolding read_bytes
  read_bytes_whole n xs ys r left e =
      rw (available_all n xs ys r left e, moves r.offset n, read_bytes, left)
        (ap (λ zs. (some n, zs)) (take-append n xs ys e))

  pub unread-forward :
      (n : ℕ) (xs ys : List ℕ) (r : BackupDataReader)
      → unread r ≡ xs ++ ys
      → n ≡ length xs
      → unread (forward n r) ≡ ys
  unread-forward n xs ys r left e =
      drop-drop r.offset n (r.offset + n) r.contents refl
      ∙ (ap (drop n) left ∙ drop-append n xs ys e)

  pub skip_padding_whole :
      (ys : List ℕ) (r : BackupDataReader)
      → unread r ≡ pad r.position ++ ys
      → r.position < 2 ^ 63
      → skip_padding sys r ≡ (forward (padding_extra r.position) r, 0)
  unfolding skip_padding advance
  skip_padding_whole ys r left bound = elim (Bool-cases (ltb 0 (padding_extra r.position))) [
    | inl some_bytes ↦
        let n = padding_extra r.position in
        let same : (n == n) ≡ true = ground arith in
        let small : (r.position + n) % 2 ^ 64 ≡ r.position + n =
          omega (arith, padding_extra_closed r.position) in
        rw
          (
            some_bytes,
            read_bytes_whole n (pad r.position) ys r left (sym (length-pad r.position)),
            same,
            small,
          )
          (ap (λ k. (record r { offset = r.offset + k; position = r.position + n }, 0))
            (length-pad r.position))
    | inr none_left ↦
        let zero_bytes : padding_extra r.position ≡ 0 = ground arith in
        rw (none_left, zero_bytes) (sym (ap (λ x. (x, 0)) (forward-zero r)))
  ]

  pub widen_small : (n : ℕ) → n < 2 ^ 31 → widen n ≡ n
  unfolding widen
  widen_small n h = ground arith

  module _ (lock : (n : ℕ) → sys.lock_buffer n ≡ true) (k ys : List ℕ) (d : ℕ)
      (r : BackupDataReader) (named : 0 < length k) (short : length k + 1 < 2 ^ 31)
      (small : d < 2 ^ 31) (bound : r.position < 2 ^ 62)
      (header : r.header ≡ entity_header (length k) d)
      (aligned : padding_extra (r.position + (length k + 1)) ≡ padding_extra (length k + 1))
      (left : unread r ≡ (k ++ (0 ∷ [])) ++ (pad (length k + 1) ++ ys)) where
    length_key : length (k ++ (0 ∷ [])) ≡ length k + 1
    length_key = omega (arith, length-append k (0 ∷ []))

    skip_key_padding :
        skip_padding sys (keyed k r) ≡ (forward (padding_extra (length k + 1)) (keyed k r), 0)
    skip_key_padding =
        let rest =
          unread-forward (length k + 1) (k ++ (0 ∷ [])) (pad (length k + 1) ++ ys) r left
            (sym length_key) in
        let ahead = rest ∙ ap (λ n. replicate n 0xbc ++ ys) (sym aligned) in
        skip_padding_whole ys (keyed k r) ahead (omega arith)
        ∙ ap (λ n. (forward n (keyed k r), 0)) aligned

    pub read_entity_key_whole : read_entity_key sys r ≡ (padded k d r, r.status)
    unfolding read_entity_key whole_int advance skip_padding_or_return
    read_entity_key_whole =
        let len : le32_at 4 r.header ≡ length k =
          ap (le32_at 4) header ∙ entity_header-key_len (length k) d (omega arith) in
        let size : le32_at 8 r.header ≡ d =
          ap (le32_at 8) header ∙ entity_header-data_size (length k) d (omega arith) in
        let valid : (ltb 0 (length k) && ltb (length k) (2 ^ 31)) ≡ true = ground arith in
        let request : (length k + 1) % 2 ^ 64 ≡ length k + 1 = omega arith in
        let got =
          read_bytes_whole (length k + 1) (k ++ (0 ∷ [])) (pad (length k + 1) ++ ys)
            (record r { entity_count = r.entity_count + 1 }) left (sym length_key) in
        let same : ((length k + 1) % 2 ^ 32 == (length k + 1) % 2 ^ 32) ≡ true = ground arith in
        let position : (r.position + length k + 1) % 2 ^ 64 ≡ r.position + (length k + 1) =
          omega arith in
        let end : (r.position + (length k + 1) + padding_extra (length k + 1) + d) % 2 ^ 64
            ≡ r.position + (length k + 1) + padding_extra (length k + 1) + d =
          omega (arith, padding_extra_closed (length k + 1)) in
        rw
          (
            len,
            valid,
            widen_small (length k) (omega arith),
            lock (length k),
            request,
            got,
            same,
            position,
            length_key,
            take-append (length k) k (0 ∷ []) refl,
            skip_key_padding,
          )
          (rw (size, widen_small d small, end) refl)
