-- ===== src/References/Ends.antt =====
-- How the loops over references in libs/androidfw/ResourceTypes.cpp end.
use f2ut_platform_frameworks.Prelude.{
  bit_or, sym, subst, not, ◌&&◌, ◌==◌, ◌≢◌, Bool-cases, arith, false, inl, inr, refl, suc, true,
  zero, ℕ, ◌<◌, ◌≡◌, ◌⊎◌,
}
use f2ut_platform_frameworks.References.{
  Found, is_block, Index, Resolving, Resources, bad_index, block, flagged, followed, is_reference,
  look_up, looked_up, other_error, resolve, resolve_reference,
}

-- `n` steps of a relation.
pub data Steps {A : Type 0} (R : A → A → Type 0) : ℕ → A → A → Type 0 where
  here : (a : A) → Steps R 0 a a
  there : (n : ℕ) (a b c : A) → R a b → Steps R n b c → Steps R (suc n) a c

-- A value with a block that is a reference, and not to nothing.
abbrev pub IsReference : {C : Type 0} → Resolving C → Type 0
IsReference s =
    ((b : ℕ) × (s.block_index ≡ block b)) × (s.value.data_type ≡ 1) × (s.value.data_ ≢ 0)

-- What getResource finds for the value.
abbrev pub found_for : {C : Type 0} → Resources C → Resolving C → Found C
found_for t s = t.get_resource s.value.data_ s.value s.config

-- The value and the configuration that were found, with the reference that led there, under an index
-- and with some flags.
abbrev pub led_to : {C : Type 0} → Resources C → Resolving C → Index → ℕ → Resolving C
led_to t s index flags = record {
  block_index = index;
  value = (found_for t s).value;
  last_ref = s.value.data_;
  type_spec_flags = flags;
  config = (found_for t s).config;
}

-- A reference is followed to a resource in a block, whose flags are added.
pub data Follows {C : Type 0} (t : Resources C) : Resolving C → Resolving C → Type 0 where
  follow :
      (s : Resolving C) (i : ℕ)
      → IsReference s
      → (found_for t s).index ≡ block i
      → Follows t s (led_to t s (block i) (bit_or s.type_spec_flags (found_for t s).spec_flags))

-- A loop that ends: with no reference; with one to a resource that is missing, whose flags are not
-- taken; or with one that getResource refuses for another reason, and whose block is kept.
pub data Ends {C : Type 0} (t : Resources C) (s : Resolving C) : Resolving C → Type 0 where
  resolved : (IsReference s → ⊥) → Ends t s s
  missing :
      IsReference s
      → (found_for t s).index ≡ bad_index
      → Ends t s (led_to t s bad_index s.type_spec_flags)
  refused :
      (e : ℕ)
      → IsReference s
      → (found_for t s).index ≡ other_error e
      → Ends t s (led_to t s s.block_index (bit_or s.type_spec_flags (found_for t s).spec_flags))

Index-cases :
    (i : Index) → ((n : ℕ) × (i ≡ block n)) ⊎ ((i ≡ bad_index) ⊎ ((e : ℕ) × (i ≡ other_error e)))
Index-cases (block n) = inl (n, refl)
Index-cases bad_index = inr (inl refl)
Index-cases (other_error e) = inr (inr (e, refl))

is_reference-IsReference : {C : Type 0} (s : Resolving C) → is_reference s ≡ true → IsReference s
unfolding is_reference is_block
is_reference-IsReference s h = elim (Index-cases s.block_index) [
  | inl (b, e) ↦
      let typed =
        subst (λ i. (is_block i && (s.value.data_type == 1 && not (s.value.data_ == 0))) ≡ true) e
          h in
      ((b, e), ground arith, λ z. ground arith)
  | inr (inl e) ↦
      let never : false ≡ true =
        subst (λ i. (is_block i && (s.value.data_type == 1 && not (s.value.data_ == 0))) ≡ true) e
          h in
      cc
  | inr (inr (k, e)) ↦
      let never : false ≡ true =
        subst (λ i. (is_block i && (s.value.data_type == 1 && not (s.value.data_ == 0))) ≡ true) e
          h in
      cc
]

not-IsReference : {C : Type 0} (s : Resolving C) → is_reference s ≡ false → IsReference s → ⊥
unfolding is_reference is_block
not-IsReference s h ((b, e), typed, real) =
    let stays =
      subst (λ i. (is_block i && (s.value.data_type == 1 && not (s.value.data_ == 0))) ≡ false) e
        h in
    ground arith

module _ {C : Type 0} (t : Resources C) where
  followed-Follows :
      (s : Resolving C) (i : ℕ)
      → IsReference s
      → (look_up t s).index ≡ block i
      → Follows t s (followed t s)
  unfolding followed flagged looked_up look_up
  followed-Follows s i h e =
      subst (λ x. Follows t s (led_to t s x (bit_or s.type_spec_flags (found_for t s).spec_flags)))
        (sym e) (follow s i h e)

  looked_up-Ends :
      (s : Resolving C)
      → IsReference s
      → (look_up t s).index ≡ bad_index
      → Ends t s (record (looked_up t s) { block_index = bad_index })
  unfolding looked_up look_up
  looked_up-Ends s h e = missing h e

  flagged-Ends :
      (s : Resolving C) (k : ℕ)
      → IsReference s
      → (look_up t s).index ≡ other_error k
      → Ends t s (flagged t s)
  unfolding flagged looked_up look_up
  flagged-Ends s k h e = refused k h e

  resolve-Ends :
      (left : ℕ) (s : Resolving C)
      → (n : ℕ) × (last : Resolving C) × Steps (Follows t) n s last
        × ((n < left) × Ends t last (resolve t left s) ⊎ ((n ≡ left) × (resolve t left s ≡ last)))
  unfolding resolve
  resolve-Ends zero s = (0, s, here s, inr (refl, refl))
  resolve-Ends (suc left) s = elim (Bool-cases (is_reference s)) [
    | inr plain ↦ (0, s, here s, inl (omega arith, rw plain (resolved (not-IsReference s plain))))
    | inl reference ↦ elim (Index-cases (look_up t s).index) [
      | inl (i, e) ↦
          let (n, last, steps, ending) = resolve-Ends left (followed t s) in
          (
            suc n,
            last,
            there n s (followed t s) last
                (followed-Follows s i (is_reference-IsReference s reference) e) steps,
            rw (reference, e)
                (elim ending [
                  | inl (short, ends) ↦ inl (omega arith, ends)
                  | inr (long, same) ↦ inr (omega arith, same)
                ]),
          )
      | inr (inl e) ↦ (
        0,
        s,
        here s,
        inl (
          omega arith,
          rw (reference, e) (looked_up-Ends s (is_reference-IsReference s reference) e),
        ),
      )
      | inr (inr (k, e)) ↦ (
        0,
        s,
        here s,
        inl (
          omega arith,
          rw (reference, e) (flagged-Ends s k (is_reference-IsReference s reference) e),
        ),
      )
    ]
  ]

  -- resolveReference follows at most 20 references, also where they lead in a circle. Each one is a
  -- value of type TYPE_REFERENCE with a block and data that is not 0, and is followed to the value,
  -- the configuration and the block that getResource finds for it; the reference is kept as the last
  -- one, and the flags found are added to those there were. After fewer than 20 it ends with what is
  -- no reference; with BAD_INDEX, and the flags there were, where getResource answers that; or, where
  -- getResource fails otherwise, with the block that the reference was found in. After 20 it returns
  -- what it has, even if that is a reference.
  pub resolve_reference-Ends :
      (s : Resolving C)
      → (n : ℕ) × (last : Resolving C) × Steps (Follows t) n s last
        × ((n < 20) × Ends t last (resolve_reference t s)
            ⊎ ((n ≡ 20) × (resolve_reference t s ≡ last)))
  unfolding resolve_reference
  resolve_reference-Ends s = resolve-Ends 20 s
