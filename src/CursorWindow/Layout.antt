-- ===== src/CursorWindow/Layout.antt =====
-- The layout of a CursorWindow (libs/androidfw/CursorWindow.cpp): which part of the window each
-- byte belongs to, the chain of chunks, and the directories of the rows.
use f2ut_platform_frameworks.Prelude.{
  Bool-cases, ap, arith, false, inl, inr, leb, ltb, none, refl, some, suc, sym, true, zero, ℕ, ◌%◌,
  ◌*◌, ◌+◌, ◌-◌, ◌/◌, ◌<◌, ◌^◌, ◌∙◌, ◌≡◌, ◌≢◌, ◌≤◌, ◌⊎◌, ◌||◌,
}
use f2ut_platform_frameworks.CursorWindow.Memory.{NotIn, read32, read32_same}
use f2ut_platform_frameworks.CursorWindow.{
  CursorWindow, get_field_slot, get_row_slot, next_chunk, walk_chunks,
}

-- What a byte is used for: a chunk of row slots, the field directory of a row, a value, or nothing.
pub data Owner : Type 0 where
  chunk : ℕ → Owner
  directory : ℕ → Owner
  value : Owner
  unused : Owner

-- The use of each byte, and where the chunks in use and the directories of the rows are.
pub record Plan : Type 0 where
  pub owner : ℕ → Owner
  pub chunk_at : ℕ → ℕ
  pub dir_at : ℕ → ℕ
  pub used : ℕ

-- The words in memory lead to the chunks and to the directories, each of which owns its bytes, and
-- the bytes from the free offset on are unused.
pub record Layout (w : CursorWindow) (g : Plan) : Type 0 where
  pub first : g.chunk_at 0 ≡ w.first_chunk_offset
  pub chain : (k : ℕ) → suc k < g.used → next_chunk w.mem (g.chunk_at k) ≡ g.chunk_at (suc k)
  pub last : (k : ℕ) → suc k ≡ g.used → next_chunk w.mem (g.chunk_at k) ≡ 0
  pub real : (k : ℕ) → k < g.used → g.chunk_at k ≢ 0
  pub chunk_owner : (k i : ℕ) → k < g.used → i < 404 → g.owner (g.chunk_at k + i) ≡ chunk k
  pub rows :
      (r : ℕ) → r < w.num_rows → read32 w.mem (g.chunk_at (r / 100) + 4 * (r % 100)) ≡ g.dir_at r
  pub dir_owner :
      (r i : ℕ) → r < w.num_rows → i < w.num_columns * 12 → g.owner (g.dir_at r + i) ≡ directory r
  pub room : w.num_rows ≤ 100 * g.used
  pub some_chunk : 0 < g.used
  pub free : (a : ℕ) → w.free_offset ≤ a → g.owner a ≡ unused
  pub fits : w.free_offset ≤ w.size
  pub small : w.size + 1024 < 2 ^ 32

-- The walk along the chunks ends at the chunk of the position.
pub walk_chunks-chain :
    (fuel bound pos k q rem used : ℕ) (chunk_at : ℕ → ℕ) (m : ℕ → ℕ)
    → ((j : ℕ) → suc j < used → next_chunk m (chunk_at j) ≡ chunk_at (suc j))
    → pos < fuel
    → pos ≡ 100 * q + rem
    → rem < bound
    → (q ≢ 0 → bound ≤ 100 + rem)
    → k + q < used
    → walk_chunks fuel bound pos (chunk_at k) m ≡ some (chunk_at (k + q), rem)
unfolding walk_chunks
walk_chunks-chain zero bound pos k q rem used c m chain enough e below more inside =
    absurd (omega arith)
walk_chunks-chain (suc fuel) bound pos k zero rem used c m chain enough e below more inside =
    let same : pos ≡ rem = omega arith in
    let stop : leb bound pos ≡ false = ground arith in
    let index : k + 0 ≡ k = omega arith in rw (stop, index, same) refl
walk_chunks-chain (suc fuel) bound pos k (suc q) rem used c m chain enough e below more inside =
    let large = more (omega arith) in
    let go : leb bound pos ≡ true = ground arith in
    let next = chain k (omega arith) in
    let further =
      walk_chunks-chain fuel bound (pos - 100) (suc k) q rem used c m chain (omega arith)
        (omega arith) below (λ h. large) (omega arith) in
    let index : suc k + q ≡ k + suc q = omega arith in
    rw (go, next) (further ∙ ap (λ j. some (c j, rem)) index)

module _ (w : CursorWindow) (g : Plan) (l : Layout w g) where
  -- `getRowSlot` finds the slot of a row.
  get_row_slot_lem :
      (row : ℕ)
      → row < w.num_rows
      → get_row_slot row w ≡ some (g.chunk_at (row / 100) + 4 * (row % 100))
  unfolding get_row_slot
  get_row_slot_lem row h =
      let walk =
        walk_chunks-chain (suc row) 100 row 0 (row / 100) (row % 100) g.used g.chunk_at w.mem
          l.chain (omega arith) (omega arith) (omega arith) (λ n. omega arith)
          (omega (arith, l.room)) in
      let from_first = ap (λ c. walk_chunks (suc row) 100 row c w.mem) (sym l.first) ∙ walk in
      let index : 0 + row / 100 ≡ row / 100 = omega arith in rw (from_first, index) refl

  -- `getFieldSlot` gives the field of the row's directory, for the rows and columns in range.
  pub get_field_slot_lem :
      (row column : ℕ)
      → row < w.num_rows
      → column < w.num_columns
      → get_field_slot row column w ≡ some (g.dir_at row + column * 12)
  unfolding get_field_slot
  get_field_slot_lem row column hr hc =
      let inside : (leb w.num_rows row || leb w.num_columns column) ≡ false = ground arith in
      rw (inside, get_row_slot_lem row hr, l.rows row hr) refl

pub get_field_slot_outside :
    (row column : ℕ) (w : CursorWindow)
    → (w.num_rows ≤ row) ⊎ (w.num_columns ≤ column)
    → get_field_slot row column w ≡ none
unfolding get_field_slot
get_field_slot_outside row column w (inl h) =
    let out : (leb w.num_rows row || leb w.num_columns column) ≡ true = ground arith in rw out refl
get_field_slot_outside row column w (inr h) =
    let out : (leb w.num_rows row || leb w.num_columns column) ≡ true = ground arith in rw out refl

-- A byte outside a part of the window with another owner.
pub NotIn-owner :
    (owner : ℕ → Owner) (a base n : ℕ) (o : Owner)
    → ((i : ℕ) → i < n → owner (base + i) ≡ o)
    → owner a ≢ o
    → NotIn a base n
NotIn-owner owner a base n o owned other = elim (Bool-cases (ltb a base)) [
  | inl before ↦ inl (ground arith)
  | inr later ↦ elim (Bool-cases (leb (base + n) a)) [
    | inl behind ↦ inr (ground arith)
    | inr inside ↦
        let at : base + (a - base) ≡ a = ground arith in
        let near : a - base < n = ground arith in
        absurd (other (ap owner (sym at) ∙ owned (a - base) near))
  ]
]

-- Memory may change outside the chunks.
pub Layout-mem :
    (w : CursorWindow) (g : Plan) (m : ℕ → ℕ)
    → Layout w g
    → ((a k : ℕ) → g.owner a ≡ chunk k → m a ≡ w.mem a)
    → Layout (record w { mem = m }) g
Layout-mem w g m l same =
    let word : ((k i : ℕ)
        → k < g.used
        → i + 4 ≤ 404
        → read32 m (g.chunk_at k + i) ≡ read32 w.mem (g.chunk_at k + i)) =
      λ k i hk hi. read32_same (g.chunk_at k + i) m w.mem (λ j hj.
        let at : g.chunk_at k + i + j ≡ g.chunk_at k + (i + j) = omega arith in
        same (g.chunk_at k + i + j) k (ap g.owner at ∙ l.chunk_owner k (i + j) hk (omega arith))) in
    record {
      first = l.first;
      chain = λ k h. word k 400 (omega arith) (omega arith) ∙ l.chain k h;
      last = λ k h. word k 400 (omega arith) (omega arith) ∙ l.last k h;
      real = l.real;
      chunk_owner = l.chunk_owner;
      rows =
          λ r h. word (r / 100) (4 * (r % 100)) (omega (arith, l.room)) (omega arith) ∙ l.rows r h;
      dir_owner = l.dir_owner;
      room = l.room;
      some_chunk = l.some_chunk;
      free = l.free;
      fits = l.fits;
      small = l.small;
    }
