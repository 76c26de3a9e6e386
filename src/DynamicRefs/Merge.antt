-- ===== src/DynamicRefs/Merge.antt =====
-- Merging two tables of package identifiers (libs/androidfw/ResourceTypes.cpp, DynamicRefTable).
use f2ut_platform_frameworks.Prelude.{
  Bool, Bool-cases, Option, arith, bit_or, false, inl, inr, none, refl, some, suc, true, zero, ℕ,
  ◌*◌, ◌+◌, ◌/◌, ◌==◌, ◌^◌, ◌≡◌, ◌≤◌, ◌<◌, ◌⊎◌, ap, sym, subst, ◌∙◌,
}
use f2ut_platform_frameworks.DynamicRefs.{
  DynamicRefTable, Entries, Mapped, add_entries, add_mappings, app_package_id, assign,
  lookup_resource_id, merge_lookup,
}

-- The first answer that there is.
abbrev pub first_of : Option ℕ → Option ℕ → Option ℕ
first_of none y = y
first_of (some x) y = some x

-- An entry of a merged table: it is both tables' where both are set.
abbrev pub IsMerged : ℕ → ℕ → ℕ → Type 0
IsMerged a b c = ((a ≡ 0) × (c ≡ b)) ⊎ (((b ≡ 0) ⊎ (b ≡ a)) × (c ≡ a))

merge_lookup-outside :
    (other : ℕ → ℕ) (left i k : ℕ) (table : ℕ → ℕ)
    → k < i
    → (merge_lookup other left i table).0 k ≡ table k
unfolding merge_lookup assign
merge_lookup-outside other zero i k table h = refl
merge_lookup-outside other (suc left) i k table h =
    let kept = merge_lookup-outside other left (suc i) k table (omega arith) in
    let taken =
      merge_lookup-outside other left (suc i) k (assign i (other i) table) (omega arith) in
    let apart : (k == i) ≡ false = ground arith in
    elim (Bool-cases (table i == other i)) [
      | inl same ↦ rw same kept
      | inr differ ↦ elim (Bool-cases (table i == 0)) [
        | inl free ↦ rw (differ, free) (taken ∙ rw apart refl)
        | inr set ↦ elim (Bool-cases (other i == 0)) [
          | inl unset ↦ rw (differ, set, unset) kept
          | inr clash ↦ rw (differ, set, clash) refl
        ]
      ]
    ]

abbrev MergesAt : (ℕ → ℕ) → (ℕ → ℕ) → ℕ → (ℕ → ℕ) × Bool → Type 0
MergesAt table other k (merged, clash) = clash ≡ false → IsMerged (table k) (other k) (merged k)

assign_self : (i v : ℕ) (table : ℕ → ℕ) → assign i v table i ≡ v
unfolding assign
assign_self i v table = let same : (i == i) ≡ true = ground arith in rw same refl

assign_other : (i k v : ℕ) (table : ℕ → ℕ) → (k == i) ≡ false → assign i v table k ≡ table k
unfolding assign
assign_other i k v table e = rw e refl

merge_lookup-first :
    (other : ℕ → ℕ) (left i : ℕ) (table : ℕ → ℕ)
    → MergesAt table other i (merge_lookup other (suc left) i table)
unfolding merge_lookup
merge_lookup-first other left i table =
    let kept = merge_lookup-outside other left (suc i) i table (omega arith) in
    let taken =
      merge_lookup-outside other left (suc i) i (assign i (other i) table) (omega arith) in
    elim (Bool-cases (table i == other i)) [
      | inl same ↦ let it : other i ≡ table i = ground arith in rw same (λ e. inr (inr it, kept))
      | inr differ ↦ elim (Bool-cases (table i == 0)) [
        | inl free ↦
            let nil : table i ≡ 0 = ground arith in
            rw (differ, free) (λ e. inl (nil, taken ∙ assign_self i (other i) table))
        | inr set ↦ elim (Bool-cases (other i == 0)) [
          | inl unset ↦
              let nil : other i ≡ 0 = ground arith in
              rw (differ, set, unset) (λ e. inr (inl nil, kept))
          | inr clash ↦ rw (differ, set, clash) (λ e. cc)
        ]
      ]
    ]

merge_lookup-MergesAt :
    (other : ℕ → ℕ) (left i k : ℕ) (table : ℕ → ℕ)
    → i ≤ k
    → k < i + left
    → MergesAt table other k (merge_lookup other left i table)
unfolding merge_lookup
merge_lookup-MergesAt other zero i k table h m = absurd (omega arith)
merge_lookup-MergesAt other (suc left) i k table h m = elim (Bool-cases (k == i)) [
  | inl first ↦
      subst (λ j. MergesAt table other j (merge_lookup other (suc left) i table)) (ground arith)
        (merge_lookup-first other left i table)
  | inr later ↦ elim (Bool-cases (table i == other i)) [
    | inl same ↦
        rw same (merge_lookup-MergesAt other left (suc i) k table (ground arith) (omega arith))
    | inr differ ↦ elim (Bool-cases (table i == 0)) [
      | inl free ↦
          rw (differ, free)
            (λ e.
              subst
                (λ v.
                  IsMerged v (other k)
                    ((merge_lookup other left (suc i) (assign i (other i) table)).0 k))
                (assign_other i k (other i) table later)
                (merge_lookup-MergesAt other left (suc i) k (assign i (other i) table)
                  (ground arith) (omega arith) e))
      | inr set ↦ elim (Bool-cases (other i == 0)) [
        | inl unset ↦
            rw (differ, set, unset)
              (merge_lookup-MergesAt other left (suc i) k table (ground arith) (omega arith))
        | inr clash ↦ rw (differ, set, clash) (λ e. cc)
      ]
    ]
  ]
]

-- A table that translates as one of the others.
lookup_merged :
    (a b c : DynamicRefTable) (res : ℕ)
    → a.assigned_package_id ≡ c.assigned_package_id
    → a.assigned_package_id ≡ b.assigned_package_id
    → IsMerged
        (a.lookup_table (res / 2 ^ 24))
        (b.lookup_table (res / 2 ^ 24))
        (c.lookup_table (res / 2 ^ 24))
    → lookup_resource_id c res ≡ first_of (lookup_resource_id a res) (lookup_resource_id b res)
unfolding lookup_resource_id
lookup_merged a b c res own both merged = elim (Bool-cases (res / 2 ^ 24 == app_package_id)) [
  | inl app ↦ rw app refl
  | inr shared ↦ elim (Bool-cases (res / 2 ^ 24 == 0)) [
    | inl local ↦ rw (shared, local) (ap (λ id. some (bit_or res (id * 2 ^ 24))) (sym own))
    | inr foreign ↦ elim merged [
      | inl (unset, same) ↦
          let none_ : (a.lookup_table (res / 2 ^ 24) == 0) ≡ true = ground arith in
          rw (shared, foreign, none_, same) refl
      | inr (others, same) ↦ elim (Bool-cases (a.lookup_table (res / 2 ^ 24) == 0)) [
        | inr set ↦ rw (shared, foreign, same, set) refl
        | inl unset ↦
            let none_ : (b.lookup_table (res / 2 ^ 24) == 0) ≡ true = ground arith in
            rw (shared, foreign, same, unset, none_) refl
      ]
    ]
  ]
]

IsMerged-sym : (a b c : ℕ) → IsMerged a b c → IsMerged b a c
IsMerged-sym a b c (inl (unset, same)) = inr (inl unset, same)
IsMerged-sym a b c (inr (inl unset, same)) = inl (unset, same)
IsMerged-sym a b c (inr (inr equal, same)) = inr (inr (sym equal), same ∙ sym equal)

-- What addMappings has done if it has not failed.
abbrev IsDone : DynamicRefTable → DynamicRefTable → Mapped → Type 0
IsDone t other m =
    m.failed ≡ false
    → (t.assigned_package_id ≡ m.table.assigned_package_id)
      × (t.assigned_package_id ≡ other.assigned_package_id)
      × ((k : ℕ)
          → k < 256
          → IsMerged (t.lookup_table k) (other.lookup_table k) (m.table.lookup_table k))

add_mappings-IsDone :
    (es : Entries) (t other : DynamicRefTable) → IsDone t other (add_mappings es other t)
unfolding add_mappings
add_mappings-IsDone es t other =
    elim (Bool-cases (t.assigned_package_id == other.assigned_package_id)) [
      | inr apart ↦ rw apart (λ e. cc)
      | inl alike ↦ elim (Bool-cases (add_entries es other.entries t.entries).1) [
        | inl conflict ↦ rw (alike, conflict) (λ e. cc)
        | inr agreed ↦
            let same : t.assigned_package_id ≡ other.assigned_package_id = ground arith in
            rw (alike, agreed)
              (λ e. (
                refl,
                same,
                λ k h.
                    merge_lookup-MergesAt other.lookup_table 256 0 k t.lookup_table (omega arith) h
                      e,
              ))
      ]
    ]

-- Where addMappings does not fail, the table then translates each identifier of a resource as either
-- of the two tables did, and none that neither did; the two never disagreed.
pub add_mappings-lookup_resource_id :
    (es : Entries) (t other : DynamicRefTable) (res : ℕ)
    → res < 2 ^ 32
    → (add_mappings es other t).failed ≡ false
    → (lookup_resource_id (add_mappings es other t).table res
        ≡ first_of (lookup_resource_id t res) (lookup_resource_id other res))
      × (lookup_resource_id (add_mappings es other t).table res
          ≡ first_of (lookup_resource_id other res) (lookup_resource_id t res))
add_mappings-lookup_resource_id es t other res small fine =
    let (own, both, merged) = add_mappings-IsDone es t other fine in
    let at = merged (res / 2 ^ 24) (omega arith) in
    let m = (add_mappings es other t).table in
    (
      lookup_merged t other m res own both at,
      lookup_merged other t m res (sym both ∙ own) (sym both) (IsMerged-sym _ _ _ at),
    )
