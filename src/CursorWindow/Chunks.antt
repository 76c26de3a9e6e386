-- ===== src/CursorWindow/Chunks.antt =====
-- The parts of a CursorWindow (libs/androidfw/CursorWindow.cpp) do not overlap: chunks, the slots
-- in them and directories, and the bytes that `alloc` gives.
use f2ut_platform_frameworks.Prelude.{
  Bool, Bool-cases, ap, arith, false, inl, inr, ltb, sym, true, ℕ, ◌%◌, ◌*◌, ◌+◌, ◌<◌, ◌==◌, ◌^◌,
  ◌∙◌, ◌≡◌, ◌≢◌, ◌≤◌, ◌⊎◌,
}
use f2ut_platform_frameworks.CursorWindow.Memory.{NotIn}
use f2ut_platform_frameworks.CursorWindow.{CursorWindow, alloc, padding}
use f2ut_platform_frameworks.CursorWindow.Layout.{
  Layout, NotIn-owner, Plan, chunk, directory, unused,
}

-- What `alloc` gives: nothing, or bytes that were free.
abbrev Allocated : ℕ → Bool → CursorWindow → Type 0
Allocated n aligned w =
    (alloc n aligned w ≡ (w, 0))
    ⊎ ((off : ℕ) × (alloc n aligned w ≡ (record w { free_offset = off + n }, off))
        × (w.free_offset ≤ off)
        × (off + n ≤ w.size))

padding_small : (aligned : Bool) (free : ℕ) → padding aligned free < 4
unfolding padding
padding_small true free = omega arith
padding_small false free = omega arith

pub alloc-Allocated :
    (n : ℕ) (aligned : Bool) (w : CursorWindow)
    → w.free_offset ≤ w.size
    → w.size + n + 512 < 2 ^ 32
    → Allocated n aligned w
unfolding alloc
alloc-Allocated n aligned w fits small =
    let off = w.free_offset + padding aligned w.free_offset in
    let small_padding = padding_small aligned w.free_offset in
    let offset : off % 2 ^ 32 ≡ off = omega arith in
    let next : (off + n) % 2 ^ 32 ≡ off + n = omega arith in
    elim (Bool-cases (ltb w.size (off + n))) [
      | inl full ↦ inl (simp (offset, next, full))
      | inr room ↦
          let within : off + n ≤ w.size = ground arith in
          inr (off, simp (offset, next, room), omega arith, within)
    ]

module _ (w : CursorWindow) (g : Plan) (l : Layout w g) where
  pub below_free : (a : ℕ) → g.owner a ≢ unused → a < w.free_offset
  below_free a h = elim (Bool-cases (ltb a w.free_offset)) [
    | inl low ↦ ground arith
    | inr high ↦ absurd (h (l.free a (ground arith)))
  ]

  pub chunk_below : (k i : ℕ) → k < g.used → i < 404 → g.chunk_at k + i < w.free_offset
  chunk_below k i hk hi =
      below_free (g.chunk_at k + i)
        (λ e. let both : chunk k ≡ unused = sym (l.chunk_owner k i hk hi) ∙ e in cc)

  pub directory_below :
      (r i : ℕ) → r < w.num_rows → i < w.num_columns * 12 → g.dir_at r + i < w.free_offset
  directory_below r i hr hi =
      below_free (g.dir_at r + i)
        (λ e. let both : directory r ≡ unused = sym (l.dir_owner r i hr hi) ∙ e in cc)

  -- A byte of a directory is outside every part of a chunk.
  pub directory_outside_chunk :
      (a r k i n : ℕ)
      → g.owner a ≡ directory r
      → k < g.used
      → i + n ≤ 404
      → NotIn a (g.chunk_at k + i) n
  directory_outside_chunk a r k i n h hk hn =
      NotIn-owner g.owner a (g.chunk_at k + i) n (chunk k)
        (λ j hj.
          let at : g.chunk_at k + i + j ≡ g.chunk_at k + (i + j) = omega arith in
          ap g.owner at ∙ l.chunk_owner k (i + j) hk (omega arith))
        (λ e. let both : directory r ≡ chunk k = sym h ∙ e in cc)

  other_chunk_apart :
      (k i j b n : ℕ)
      → k < g.used
      → j < g.used
      → i < 404
      → b + n ≤ 404
      → k ≢ j
      → NotIn (g.chunk_at k + i) (g.chunk_at j + b) n
  other_chunk_apart k i j b n hk hj hi hn other =
      NotIn-owner g.owner (g.chunk_at k + i) (g.chunk_at j + b) n (chunk j)
        (λ x hx.
          let at : g.chunk_at j + b + x ≡ g.chunk_at j + (b + x) = omega arith in
          ap g.owner at ∙ l.chunk_owner j (b + x) hj (omega arith))
        (λ e.
          let both : chunk k ≡ chunk j = sym (l.chunk_owner k i hk hi) ∙ e in
          let equal : k ≡ j = cc in other equal)

  -- Parts of two chunks, or disjoint parts of one, do not overlap.
  pub chunks_apart :
      (k i j b n : ℕ)
      → k < g.used
      → j < g.used
      → i < 404
      → b + n ≤ 404
      → (k ≢ j) ⊎ NotIn i b n
      → NotIn (g.chunk_at k + i) (g.chunk_at j + b) n
  chunks_apart k i j b n hk hj hi hn (inl other) = other_chunk_apart k i j b n hk hj hi hn other
  chunks_apart k i j b n hk hj hi hn (inr out) = elim (Bool-cases (k == j)) [
    | inl same ↦
        let equal : k ≡ j = ground arith in
        let at = ap g.chunk_at equal in
        elim out [
          | inl before ↦ inl (omega (arith, at, before))
          | inr behind ↦ inr (omega (arith, at, behind))
        ]
    | inr apart ↦ other_chunk_apart k i j b n hk hj hi hn (λ e. ground arith)
  ]
