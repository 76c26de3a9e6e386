-- ===== src/CursorWindow/Growth.antt =====
-- What the operations of CursorWindow (libs/androidfw/CursorWindow.cpp) keep of the rows there are
-- when they take more of the window.
use f2ut_platform_frameworks.Prelude.{
  Bool-cases, ap, arith, inl, inr, ltb, refl, some, sym, ℕ, ◌*◌, ◌+◌, ◌<◌, ◌∙◌, ◌≡◌, ◌≤◌,
}
use f2ut_platform_frameworks.CursorWindow.Memory.{read32, read32_same, read64, read64_same}
use f2ut_platform_frameworks.CursorWindow.{CursorWindow}
use f2ut_platform_frameworks.CursorWindow.Layout.{Layout, Plan, directory}
use f2ut_platform_frameworks.CursorWindow.Fields.{cell, cell_inside, cell_outside, field_owner}

-- The second window has the rows of the first, with their directories and the bytes in them.
pub record Grown (w : CursorWindow) (g : Plan) (w' : CursorWindow) (g' : Plan) : Type 0 where
  pub layout : Layout w' g'
  pub columns : w'.num_columns ≡ w.num_columns
  pub same_size : w'.size ≡ w.size
  pub same_access : w'.read_only ≡ w.read_only
  pub more_rows : w.num_rows ≤ w'.num_rows
  pub dirs : (r : ℕ) → r < w.num_rows → g'.dir_at r ≡ g.dir_at r
  pub kept : (a r : ℕ) → r < w.num_rows → g.owner a ≡ directory r → w'.mem a ≡ w.mem a
  pub owners : (a r : ℕ) → r < w.num_rows → g.owner a ≡ directory r → g'.owner a ≡ directory r

pub Grown-trans :
    (w w' w'' : CursorWindow) (g g' g'' : Plan)
    → Grown w g w' g'
    → Grown w' g' w'' g''
    → Grown w g w'' g''
Grown-trans w w' w'' g g' g'' a b =
    let more : (r : ℕ) → r < w.num_rows → r < w'.num_rows = λ r h. omega (arith, h, a.more_rows) in
    record {
      layout = b.layout;
      columns = b.columns ∙ a.columns;
      same_size = b.same_size ∙ a.same_size;
      same_access = b.same_access ∙ a.same_access;
      more_rows = omega (arith, a.more_rows, b.more_rows);
      dirs = λ r h. b.dirs r (more r h) ∙ a.dirs r h;
      kept = λ x r h o. b.kept x r (more r h) (a.owners x r h o) ∙ a.kept x r h o;
      owners = λ x r h o. b.owners x r (more r h) (a.owners x r h o);
    }

-- The fields of the rows there were read as before.
pub Grown-cell :
    (w w' : CursorWindow) (g g' : Plan) (row column : ℕ)
    → Layout w g
    → Grown w g w' g'
    → row < w.num_rows
    → cell w' row column ≡ cell w row column
Grown-cell w w' g g' row column l grown hr = elim (Bool-cases (ltb column w.num_columns)) [
  | inl low ↦
      let hc : column < w.num_columns = ground arith in
      let hr' : row < w'.num_rows = omega (arith, hr, grown.more_rows) in
      let hc' : column < w'.num_columns = omega (arith, hc, grown.columns) in
      let slot = g.dir_at row + column * 12 in
      let at : g'.dir_at row + column * 12 ≡ slot = ap (λ d. d + column * 12) (grown.dirs row hr) in
      let byte : ((i : ℕ) → i < 12 → w'.mem (slot + i) ≡ w.mem (slot + i)) =
        λ i h. grown.kept (slot + i) row hr (field_owner w g l row column i hr hc h) in
      let type = read32_same slot w'.mem w.mem (λ i h. byte i (omega arith)) in
      let value = read64_same (slot + 4) w'.mem w.mem (λ i h.
        let place : slot + 4 + i ≡ slot + (4 + i) = omega arith in
        ap w'.mem place ∙ (byte (4 + i) (omega arith) ∙ ap w.mem (sym place))) in
      cell_inside w' g' grown.layout row column hr' hc'
      ∙ (ap (λ s. some (read32 w'.mem s, read64 w'.mem (s + 4))) at
          ∙ (rw (type, value) refl ∙ sym (cell_inside w g l row column hr hc)))
  | inr high ↦
      let out : w.num_columns ≤ column = ground arith in
      let out' : w'.num_columns ≤ column = omega (arith, out, grown.columns) in
      cell_outside w' row column (inr out') ∙ sym (cell_outside w row column (inr out))
]
