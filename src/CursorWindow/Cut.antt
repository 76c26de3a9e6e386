-- ===== src/CursorWindow/Cut.antt =====
-- The list of chunks of a CursorWindow (libs/androidfw/CursorWindow.cpp) made to end at one of
-- its chunks, as allocRowSlot does with the chunk it goes on in.
use f2ut_platform_frameworks.Prelude.{
  ap, arith, inl, inr, refl, suc, sym, ℕ, ◌%◌, ◌*◌, ◌+◌, ◌/◌, ◌<◌, ◌∙◌, ◌≡◌, ◌≢◌, ◌≤◌, ◌⊎◌,
}
use f2ut_platform_frameworks.CursorWindow.Memory.{
  NotIn, read32, read32-write32, read32_same, write32, write32_outside,
}
use f2ut_platform_frameworks.CursorWindow.{CursorWindow}
use f2ut_platform_frameworks.CursorWindow.Layout.{Layout, Plan}
use f2ut_platform_frameworks.CursorWindow.Chunks.{chunks_apart, directory_outside_chunk}
use f2ut_platform_frameworks.CursorWindow.Growth.{Grown}

-- The window, and the plan, whose last chunk is the k-th.
abbrev pub cut : CursorWindow → Plan → ℕ → CursorWindow
cut w g k = record w { mem = write32 (g.chunk_at k + 400) 0 w.mem }

abbrev pub plan_cut : Plan → ℕ → Plan
plan_cut g k = record g { used = suc k }

module _ (w : CursorWindow) (g : Plan) (l : Layout w g) (k : ℕ) (in_use : k < g.used)
    (room : w.num_rows ≤ 100 * suc k) where
  -- The words of the chunks are kept, but for the one that is written.
  cut_word :
      (j i : ℕ)
      → j < g.used
      → i + 4 ≤ 404
      → (j ≢ k) ⊎ (i + 4 ≤ 400)
      → read32 (cut w g k).mem (g.chunk_at j + i) ≡ read32 w.mem (g.chunk_at j + i)
  cut_word j i hj hi apart = read32_same (g.chunk_at j + i) (cut w g k).mem w.mem (λ x hx.
      let at : g.chunk_at j + i + x ≡ g.chunk_at j + (i + x) = omega arith in
      let beside : (j ≢ k) ⊎ NotIn (i + x) 400 4 = elim apart [
        | inl other ↦ inl other
        | inr before ↦ inr (inl (omega arith))
      ] in
      let out = chunks_apart w g l j (i + x) k 400 4 hj in_use (omega arith) (omega arith) beside in
      ap (cut w g k).mem at
      ∙ (write32_outside (g.chunk_at k + 400) 0 (g.chunk_at j + (i + x)) w.mem out
          ∙ ap w.mem (sym at)))

  cut-Layout : Layout (cut w g k) (plan_cut g k)
  cut-Layout = record {
    first = l.first;
    chain = λ j h.
        cut_word j 400 (omega arith) (omega arith) (inl (λ e. ground arith))
        ∙ l.chain j (omega arith);
    last = λ j h.
        let same : j ≡ k = omega arith in
        ap (λ x. read32 (cut w g k).mem (g.chunk_at x + 400)) same
        ∙ read32-write32 (g.chunk_at k + 400) 0 w.mem (omega arith);
    real = λ j h. l.real j (omega arith);
    chunk_owner = λ j i hj hi. l.chunk_owner j i (omega arith) hi;
    rows = λ r h.
        cut_word (r / 100) (4 * (r % 100)) (omega (arith, room)) (omega arith) (inr (omega arith))
        ∙ l.rows r h;
    dir_owner = l.dir_owner;
    room = room;
    some_chunk = omega arith;
    free = l.free;
    fits = l.fits;
    small = l.small;
  }

  pub cut-Grown : Grown w g (cut w g k) (plan_cut g k)
  cut-Grown = record {
    layout = cut-Layout;
    columns = refl;
    same_size = refl;
    same_access = refl;
    more_rows = omega arith;
    dirs = λ r h. refl;
    kept = λ a r h o.
        write32_outside (g.chunk_at k + 400) 0 a w.mem
          (directory_outside_chunk w g l a r k 400 4 o in_use (omega arith));
    owners = λ a r h o. o;
  }
