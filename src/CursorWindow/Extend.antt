-- ===== src/CursorWindow/Extend.antt =====
-- A chunk that allocRowSlot of libs/androidfw/CursorWindow.cpp adds to the list of chunks.
use f2ut_platform_frameworks.Prelude.{
  Bool-cases, ap, arith, if◌then◌else◌, inl, inr, leb, ltb, refl, suc, sym, ℕ, ◌%◌, ◌&&◌, ◌*◌, ◌+◌,
  ◌/◌, ◌<◌, ◌==◌, ◌∙◌, ◌≡◌, ◌≢◌, ◌≤◌, ◌⊎◌,
}
use f2ut_platform_frameworks.CursorWindow.Memory.{
  NotIn, read32, read32-write32, read32_same, write32, write32_outside,
}
use f2ut_platform_frameworks.CursorWindow.{CursorWindow}
use f2ut_platform_frameworks.CursorWindow.Layout.{Layout, Owner, Plan, chunk, directory, unused}
use f2ut_platform_frameworks.CursorWindow.Chunks.{
  below_free, chunk_below, chunks_apart, directory_below, directory_outside_chunk,
}
use f2ut_platform_frameworks.CursorWindow.Growth.{Grown}

-- The window, and the plan, with one more chunk at `off` behind the last one.
abbrev pub extend : CursorWindow → Plan → ℕ → ℕ → CursorWindow
extend w g k off = record w {
  free_offset = off + 404;
  mem = write32 (off + 400) 0 (write32 (g.chunk_at k + 400) off w.mem);
}

unfoldable pub chunk_owners : ℕ → ℕ → (ℕ → Owner) → ℕ → Owner
chunk_owners k off owner a = if leb off a && ltb a (off + 404) then chunk k else owner a

unfoldable pub chunks_with : ℕ → ℕ → (ℕ → ℕ) → ℕ → ℕ
chunks_with k off chunk_at j = if j == k then off else chunk_at j

abbrev pub plan_extend : Plan → ℕ → Plan
plan_extend g off = record g {
  owner = chunk_owners g.used off g.owner;
  chunk_at = chunks_with g.used off g.chunk_at;
  used = suc g.used;
}

chunk_owners_below :
    (k off a : ℕ) (owner : ℕ → Owner) → a < off → chunk_owners k off owner a ≡ owner a
unfolding chunk_owners
chunk_owners_below k off a owner h = ground arith

chunk_owners_above :
    (k off a : ℕ) (owner : ℕ → Owner) → off + 404 ≤ a → chunk_owners k off owner a ≡ owner a
unfolding chunk_owners
chunk_owners_above k off a owner h = ground arith

chunk_owners_inside :
    (k off i : ℕ) (owner : ℕ → Owner) → i < 404 → chunk_owners k off owner (off + i) ≡ chunk k
unfolding chunk_owners
chunk_owners_inside k off i owner h = ground arith

pub chunks_with_same : (k off j : ℕ) (chunk_at : ℕ → ℕ) → j ≡ k → chunks_with k off chunk_at j ≡ off
unfolding chunks_with
chunks_with_same k off j chunk_at h = ground arith

chunks_with_other :
    (k off j : ℕ) (chunk_at : ℕ → ℕ) → j < k → chunks_with k off chunk_at j ≡ chunk_at j
unfolding chunks_with
chunks_with_other k off j chunk_at h = ground arith

module _ (w : CursorWindow) (g : Plan) (l : Layout w g) (k off : ℕ) (is_last : suc k ≡ g.used)
    (behind : w.free_offset ≤ off) (fit : off + 404 ≤ w.size) where
  -- The words of the chunks in use are kept, but for the link of the last chunk.
  extend_word :
      (j i : ℕ)
      → j < g.used
      → i + 4 ≤ 404
      → (j ≢ k) ⊎ (i + 4 ≤ 400)
      → read32 (extend w g k off).mem (chunks_with g.used off g.chunk_at j + i)
        ≡ read32 w.mem (g.chunk_at j + i)
  extend_word j i hj hi apart =
      ap (λ c. read32 (extend w g k off).mem (c + i)) (chunks_with_other g.used off j g.chunk_at hj)
      ∙ read32_same (g.chunk_at j + i) (extend w g k off).mem w.mem (λ x hx.
        let at : g.chunk_at j + i + x ≡ g.chunk_at j + (i + x) = omega arith in
        let beside : (j ≢ k) ⊎ NotIn (i + x) 400 4 = elim apart [
          | inl other ↦ inl other
          | inr before ↦ inr (inl (omega arith))
        ] in
        let out =
          chunks_apart w g l j (i + x) k 400 4 hj (omega arith) (omega arith) (omega arith)
            beside in
        let low = chunk_below w g l j (i + x) hj (omega arith) in
        ap (extend w g k off).mem at
        ∙ (write32_outside (off + 400) 0 (g.chunk_at j + (i + x))
              (write32 (g.chunk_at k + 400) off w.mem) (inl (omega arith))
            ∙ (write32_outside (g.chunk_at k + 400) off (g.chunk_at j + (i + x)) w.mem out
                ∙ ap w.mem (sym at))))

  -- The link of the last chunk leads to the new one.
  extend_link : read32 (extend w g k off).mem (chunks_with g.used off g.chunk_at k + 400) ≡ off
  extend_link =
      let m = write32 (g.chunk_at k + 400) off w.mem in
      ap (λ c. read32 (extend w g k off).mem (c + 400))
        (chunks_with_other g.used off k g.chunk_at (omega arith))
      ∙ (read32_same (g.chunk_at k + 400) (extend w g k off).mem m (λ x hx.
            let low = chunk_below w g l k (400 + x) (omega arith) (omega arith) in
            write32_outside (off + 400) 0 (g.chunk_at k + 400 + x) m (inl (omega arith)))
          ∙ read32-write32 (g.chunk_at k + 400) off w.mem (omega (arith, l.small, fit)))

  extend-chain :
      (j : ℕ)
      → j < g.used
      → read32 (extend w g k off).mem (chunks_with g.used off g.chunk_at j + 400)
        ≡ chunks_with g.used off g.chunk_at (suc j)
  extend-chain j h = elim (Bool-cases (j == k)) [
    | inl same ↦
        let equal : j ≡ k = ground arith in
        ap (λ x. read32 (extend w g k off).mem (chunks_with g.used off g.chunk_at x + 400)) equal
        ∙ (extend_link ∙ sym (chunks_with_same g.used off (suc j) g.chunk_at (omega arith)))
    | inr apart ↦
        let other : j ≢ k = λ e. ground arith in
        let inner : suc j < g.used = ground arith in
        extend_word j 400 h (omega arith) (inl other)
        ∙ (l.chain j inner ∙ sym (chunks_with_other g.used off (suc j) g.chunk_at inner))
  ]

  extend-chunk_owner :
      (j i : ℕ)
      → j < suc g.used
      → i < 404
      → chunk_owners g.used off g.owner (chunks_with g.used off g.chunk_at j + i) ≡ chunk j
  extend-chunk_owner j i h hi = elim (Bool-cases (j == g.used)) [
    | inl same ↦
        let equal : j ≡ g.used = ground arith in
        ap (λ c. chunk_owners g.used off g.owner (c + i))
          (chunks_with_same g.used off j g.chunk_at equal)
        ∙ (chunk_owners_inside g.used off i g.owner hi ∙ ap chunk (sym equal))
    | inr apart ↦
        let inner : j < g.used = ground arith in
        let low = chunk_below w g l j i inner hi in
        ap (λ c. chunk_owners g.used off g.owner (c + i))
          (chunks_with_other g.used off j g.chunk_at inner)
        ∙ (chunk_owners_below g.used off (g.chunk_at j + i) g.owner (omega arith)
            ∙ l.chunk_owner j i inner hi)
  ]

  extend-real : (j : ℕ) → j < suc g.used → chunks_with g.used off g.chunk_at j ≢ 0
  extend-real j h e = elim (Bool-cases (j == g.used)) [
    | inl same ↦
        let at = chunks_with_same g.used off j g.chunk_at (ground arith) in
        let low = chunk_below w g l 0 403 l.some_chunk (omega arith) in omega arith
    | inr apart ↦
        let inner : j < g.used = ground arith in
        l.real j inner (sym (chunks_with_other g.used off j g.chunk_at inner) ∙ e)
  ]

  extend-Layout : Layout (extend w g k off) (plan_extend g off)
  extend-Layout = record {
    first = chunks_with_other g.used off 0 g.chunk_at l.some_chunk ∙ l.first;
    chain = λ j h. extend-chain j (omega arith);
    last = λ j h.
        let same : j ≡ g.used = omega arith in
        ap (λ c. read32 (extend w g k off).mem (c + 400))
          (chunks_with_same g.used off j g.chunk_at same)
        ∙ read32-write32 (off + 400) 0 (write32 (g.chunk_at k + 400) off w.mem) (omega arith);
    real = extend-real;
    chunk_owner = extend-chunk_owner;
    rows = λ r h.
        extend_word (r / 100) (4 * (r % 100)) (omega (arith, l.room)) (omega arith)
          (inr (omega arith))
        ∙ l.rows r h;
    dir_owner = λ r i h hi.
        chunk_owners_below g.used off (g.dir_at r + i) g.owner
          (omega (arith, behind, directory_below w g l r i h hi))
        ∙ l.dir_owner r i h hi;
    room = omega (arith, l.room);
    some_chunk = omega arith;
    free = λ a h. chunk_owners_above g.used off a g.owner h ∙ l.free a (omega arith);
    fits = fit;
    small = l.small;
  }

  pub extend-Grown : Grown w g (extend w g k off) (plan_extend g off)
  extend-Grown =
      let low : (a r : ℕ) → g.owner a ≡ directory r → a < w.free_offset =
        λ a r o. below_free w g l a (λ e. let both : directory r ≡ unused = sym o ∙ e in cc) in
      record {
        layout = extend-Layout;
        columns = refl;
        same_size = refl;
        same_access = refl;
        more_rows = omega arith;
        dirs = λ r h. refl;
        kept = λ a r h o.
            write32_outside (off + 400) 0 a (write32 (g.chunk_at k + 400) off w.mem)
              (inl (omega (arith, behind, low a r o)))
            ∙ write32_outside (g.chunk_at k + 400) off a w.mem
                (directory_outside_chunk w g l a r k 400 4 o (omega arith) (omega arith));
        owners = λ a r h o.
            chunk_owners_below g.used off a g.owner (omega (arith, behind, low a r o)) ∙ o;
      }
