-- ===== src/StringPool/Cached.antt =====
-- The cache of decoded strings in ResStringPool::stringAt (libs/androidfw/ResourceTypes.cpp).
use f2ut_platform_frameworks.Prelude.{
  Bool-cases, List, Option, Option-cases, ap, arith, false, if◌then◌else◌, inl, inr, ltb, none,
  refl, some, subst, sym, true, ℕ, ◌&&◌, ◌*◌, ◌+◌, ◌/◌, ◌==◌, ◌>>=◌, ◌∙◌, ◌≡◌, ◌⊎◌,
}
use f2ut_platform_frameworks.StringPool.{Pool, is_utf8, read32, read_bytes}
use f2ut_platform_frameworks.StringPool.Strings.{
  Chars, Unicode, at_place, decode, decoded, find16, find8, stored, string_at, succeeded,
}

-- The pool with nothing in its cache.
abbrev pub uncached : Pool → Pool
uncached p = record p { cache = λ i. none }

-- What is answered, without the pool.
abbrev pub answer : Option (Pool × Option Chars) → Option (Option Chars)
answer r = r >>= λ (q, chars). some chars

-- The cache holds what the pool without it would answer.
abbrev pub IsCoherent : Unicode → Pool → Type 0
IsCoherent u p =
    (i : ℕ) (chars : List ℕ)
    → p.cache i ≡ some chars
    → (len : ℕ) × (answer (string_at u (uncached p) i) ≡ some (some (decoded chars len)))

-- A call with the cache and the one without it: they answer the same, and the cache takes up no
-- more than the answer.
abbrev IsSame : Pool → ℕ → Option (Pool × Option Chars) → Option (Pool × Option Chars) → Type 0
IsSame p idx none y = answer y ≡ none
IsSame p idx (some (q, r)) y =
    (answer y ≡ some r)
    × (uncached q ≡ uncached p)
    × ((i : ℕ) (chars : List ℕ)
        → q.cache i ≡ some chars
        → (p.cache i ≡ some chars) ⊎ ((i ≡ idx) × ((len : ℕ) × (r ≡ some (decoded chars len)))))

decode-IsSame :
    (u : Unicode) (p : Pool) (idx len : ℕ) (bytes : List ℕ)
    → IsSame p idx (some (decode u p idx len bytes)) (some (decode u (uncached p) idx len bytes))
unfolding decode
decode-IsSame u p idx len bytes = elim (Option-cases (u.utf16_length bytes)) [
  | inl bad ↦ rw (bad, IsSame, decode) (refl, refl, λ i chars e. inl e)
  | inr (n, e) ↦ elim (Bool-cases (n == len)) [
    | inr other ↦ rw (e, other, IsSame, decode) (refl, refl, λ i chars e. inl e)
    | inl same ↦
        rw (e, same, IsSame, decode)
          (refl, refl, λ i chars h. added i chars (Bool-cases (i == idx)) h)
  ]
]
  where
    added :
        (i : ℕ) (chars : List ℕ)
        → ((i == idx) ≡ true) ⊎ ((i == idx) ≡ false)
        → (if i == idx then some (u.utf16 bytes) else p.cache i) ≡ some chars
        → (p.cache i ≡ some chars)
          ⊎ ((i ≡ idx) × ((k : ℕ) × (some (decoded (u.utf16 bytes) len) ≡ some (decoded chars k))))
    added i chars (inl here) h =
        let now : some (u.utf16 bytes) ≡ some chars =
          subst (λ b. (if b then some (u.utf16 bytes) else p.cache i) ≡ some chars) here h in
        let it : u.utf16 bytes ≡ chars = cc in
        inr (ground arith, (len, ap (λ c. some (decoded c len)) it))
    added i chars (inr elsewhere) h =
        inl (subst (λ b. (if b then some (u.utf16 bytes) else p.cache i) ≡ some chars) elsewhere h)

-- The length in a decoded string is the one in the pool.
abbrev HasLength : ℕ → Option Chars → Type 0
HasLength len (some (decoded chars k)) = len ≡ k
HasLength len (some (stored start k)) = Unit {0}
HasLength len none = Unit {0}

decode-HasLength :
    (u : Unicode) (p : Pool) (idx len : ℕ) (bytes : List ℕ)
    → HasLength len (decode u p idx len bytes).1
unfolding decode
decode-HasLength u p idx len bytes = elim (Option-cases (u.utf16_length bytes)) [
  | inl bad ↦ rw (bad, HasLength, decode) tt
  | inr (n, e) ↦ elim (Bool-cases (n == len)) [
    | inr other ↦ rw (e, other, HasLength, decode) tt
    | inl same ↦ rw (e, same, HasLength, decode) refl
  ]
]

-- A string in the cache is answered with the length that it was put there with.
kept_answer :
    (u : Unicode) (p : Pool) (idx start enc_len len k : ℕ) (chars : List ℕ)
    → answer (at_place u (uncached p) idx (some (start, enc_len, len)))
      ≡ some (some (decoded chars k))
    → answer (at_place u (uncached p) idx (some (start, enc_len, len)))
      ≡ some (some (decoded chars len))
unfolding at_place
kept_answer u p idx start enc_len len k chars e =
    elim (Option-cases (read_bytes p.block start enc_len)) [
      | inl outside ↦
          let nothing : answer (at_place u (uncached p) idx (some (start, enc_len, len))) ≡ none =
            rw (outside, at_place) refl in
          cc
      | inr (bytes, reads) ↦
          let now : answer (at_place u (uncached p) idx (some (start, enc_len, len)))
              ≡ some (decode u (uncached p) idx len bytes).1 =
            rw (reads, at_place) refl in
          let it : (decode u (uncached p) idx len bytes).1 ≡ some (decoded chars k) = cc in
          let same = subst (HasLength len) it (decode-HasLength u (uncached p) idx len bytes) in
          e ∙ ap (λ i. some (some (decoded chars i))) (sym same)
    ]

at_place-IsSame :
    (u : Unicode) (p : Pool) (idx : ℕ) (found : Option (ℕ × ℕ × ℕ))
    → ((chars : List ℕ)
        → p.cache idx ≡ some chars
        → (k : ℕ) × (answer (at_place u (uncached p) idx found) ≡ some (some (decoded chars k))))
    → IsSame p idx (at_place u p idx found) (at_place u (uncached p) idx found)
unfolding at_place
at_place-IsSame u p idx none coherent = (refl, refl, λ i chars e. inl e)
at_place-IsSame u p idx (some (start, enc_len, len)) coherent = elim (Option-cases (p.cache idx)) [
  | inl fresh ↦ elim (Option-cases (read_bytes p.block start enc_len)) [
    | inl outside ↦ rw (fresh, outside, at_place) refl
    | inr (bytes, reads) ↦ rw (fresh, reads, at_place) (decode-IsSame u p idx len bytes)
  ]
  | inr (chars, kept) ↦
      let (k, e) = coherent chars kept in
      let same = kept_answer u p idx start enc_len len k chars e in
      rw (kept, at_place) (same, refl, λ i other h. inl h)
]

find8-uncached : (p : Pool) (off : ℕ) → find8 (uncached p) off ≡ find8 p off
unfolding find8
find8-uncached p off = refl

find16-uncached : (p : Pool) (off : ℕ) → find16 (uncached p) off ≡ find16 p off
unfolding find16
find16-uncached p off = refl

string_at-IsSame :
    (u : Unicode) (p : Pool) (idx : ℕ)
    → IsCoherent u p
    → IsSame p idx (string_at u p idx) (string_at u (uncached p) idx)
unfolding string_at
string_at-IsSame u p idx coherent =
    elim (Bool-cases (succeeded p.error && ltb idx p.header.string_count)) [
      | inr outside ↦ rw outside (refl, refl, λ i chars e. inl e)
      | inl asked ↦ elim (Option-cases (read32 p.block (p.entries + idx * 4))) [
        | inl unread ↦ rw (asked, unread) refl
        | inr (entry, read) ↦ elim (Bool-cases (is_utf8 p.header)) [
          | inl utf8 ↦ elim (Option-cases (find8 p entry)) [
            | inl unread ↦ rw (asked, read, utf8, find8-uncached p entry, unread) refl
            | inr (place, finds) ↦
                let whole : string_at u (uncached p) idx ≡ at_place u (uncached p) idx place =
                  rw (asked, read, utf8, find8-uncached p entry, finds) refl in
                rw (asked, read, utf8, find8-uncached p entry, finds)
                  (at_place-IsSame u p idx place λ chars kept.
                    let (k, e) = coherent idx chars kept in (k, ap answer (sym whole) ∙ e))
          ]
          | inr utf16 ↦ elim (Option-cases (find16 p (entry / 2))) [
            | inl unread ↦ rw (asked, read, utf16, find16-uncached p (entry / 2), unread) refl
            | inr (chars, finds) ↦
                rw (asked, read, utf16, find16-uncached p (entry / 2), finds)
                  (refl, refl, λ i c e. inl e)
          ]
        ]
      ]
    ]

-- A pool whose cache holds what stringAt would answer without it, as the empty cache does: stringAt
-- answers what it would answer without the cache, reads outside the block and the string NULL
-- included, and it leaves such a cache again.
pub string_at-cached :
    (u : Unicode) (p : Pool) (idx : ℕ)
    → IsCoherent u p
    → (answer (string_at u p idx) ≡ answer (string_at u (uncached p) idx))
      × ((q : Pool) (chars : Option Chars) → string_at u p idx ≡ some (q, chars) → IsCoherent u q)
string_at-cached u p idx coherent = (
  same_answer (string_at u p idx) (string_at-IsSame u p idx coherent),
  λ q chars e.
      let (said, bare, added) =
        subst (λ x. IsSame p idx x (string_at u (uncached p) idx)) e
          (string_at-IsSame u p idx coherent) in
      λ i kept h.
        subst (λ b. (k : ℕ) × (answer (string_at u b i) ≡ some (some (decoded kept k)))) (sym bare)
          (elim (added i kept h) [
            | inl before ↦ coherent i kept before
            | inr (here, (k, it)) ↦
                (k, ap (λ j. answer (string_at u (uncached p) j)) here ∙ (said ∙ ap some it))
          ]),
)
  where
    same_answer :
        (x : Option (Pool × Option Chars))
        → IsSame p idx x (string_at u (uncached p) idx)
        → answer x ≡ answer (string_at u (uncached p) idx)
    same_answer none s = sym s
    same_answer (some (q, chars)) (said, bare, added) = sym said
