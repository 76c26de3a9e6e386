-- ===== src/References/Attributes.antt =====
-- How the loop of Theme::getAttribute in libs/androidfw/ResourceTypes.cpp ends.
use f2ut_platform_frameworks.Prelude.{
  Bool-cases, Option-cases, ap, arith, bit_or, inl, inr, none, refl, some, suc, zero, ℕ, ◌==◌, ◌≡◌,
  ◌≤◌, ◌⊎◌, ◌≢◌,
}
use f2ut_platform_frameworks.References.{
  Attribute, Theme, ThemeEntry, at_entry, bad_index, find_entry, follow_attributes, get_attribute,
  no_attribute,
}
use f2ut_platform_frameworks.References.Ends.{Steps, here, there}

-- The theme gives another attribute for an attribute.
pub data Refers (th : Theme) : ℕ → ℕ → Type 0 where
  refer :
      (res_id : ℕ) (te : ThemeEntry)
      → find_entry th res_id ≡ some te
      → te.value.data_type ≡ 2
      → Refers th res_id te.value.data_

-- The loop's result where it ends: there is no entry, or one with no value, or one with a value that
-- is no attribute.
pub data Yields (th : Theme) (res_id : ℕ) (a : Attribute) : Type 0 where
  no_entry : find_entry th res_id ≡ none → a.index ≡ bad_index → a.value ≡ none → Yields th res_id a
  empty :
      (te : ThemeEntry)
      → find_entry th res_id ≡ some te
      → te.value.data_type ≡ 0
      → a.index ≡ bad_index
      → a.value ≡ none
      → Yields th res_id a
  value :
      (te : ThemeEntry)
      → find_entry th res_id ≡ some te
      → te.value.data_type ≢ 0
      → te.value.data_type ≢ 2
      → a.index ≡ te.string_block
      → a.value ≡ some te.value
      → Yields th res_id a

-- After the last attribute that is followed: a further one is none.
abbrev pub IsTooDeep : Theme → ℕ → Attribute → Type 0
IsTooDeep th res_id a =
    ((next : ℕ) × Refers th res_id next) × (a.index ≡ bad_index) × (a.value ≡ none)

-- One pass of the loop: it ends, or goes on with a further attribute.
at_entry-Yields :
    (th : Theme) (res_id flags : ℕ) (further : ℕ → ℕ → Attribute)
    → Yields th res_id (at_entry (find_entry th res_id) flags further)
      ⊎ ((next flags' : ℕ) × Refers th res_id next
          × (at_entry (find_entry th res_id) flags further ≡ further next flags'))
unfolding at_entry no_attribute
at_entry-Yields th res_id flags further = elim (Option-cases (find_entry th res_id)) [
  | inl e ↦ inl (no_entry e (rw e refl) (rw e refl))
  | inr (te, e) ↦ elim (Bool-cases (te.value.data_type == 2)) [
    | inl again ↦ inr (
      te.value.data_,
      bit_or flags te.type_spec_flags,
      refer res_id te e (ground arith),
      rw e (rw (again, at_entry) refl),
    )
    | inr other ↦ elim (Bool-cases (te.value.data_type == 0)) [
      | inl null ↦ inl (
          empty te e (ground arith) (rw e (rw (other, null, at_entry) refl))
            (rw e (rw (other, null, at_entry) refl)))
      | inr set ↦ inl (
          value te e (λ h. ground arith) (λ h. ground arith) (rw e (rw (other, set, at_entry) refl))
            (rw e (rw (other, set, at_entry) refl)))
    ]
  ]
]

follow_attributes-Yields :
    (th : Theme) (cnt res_id flags : ℕ)
    → (n last : ℕ) × Steps (Refers th) n res_id last
      × (n ≤ cnt)
      × (Yields th last (follow_attributes th cnt res_id flags)
          ⊎ ((n ≡ cnt) × IsTooDeep th last (follow_attributes th cnt res_id flags)))
unfolding follow_attributes no_attribute
follow_attributes-Yields th zero res_id flags =
    elim (at_entry-Yields th res_id flags (λ id flags. no_attribute flags)) [
      | inl ends ↦ (0, res_id, here res_id, omega arith, inl ends)
      | inr (next, flags', refers, same) ↦ (
        0,
        res_id,
        here res_id,
        omega arith,
        inr (refl, ((next, refers), ap (λ a. a.index) same, ap (λ a. a.value) same)),
      )
    ]
follow_attributes-Yields th (suc cnt) res_id flags =
    elim (at_entry-Yields th res_id flags (follow_attributes th cnt)) [
      | inl ends ↦ (0, res_id, here res_id, omega arith, inl ends)
      | inr (next, flags', refers, same) ↦
          let (n, last, steps, few, ending) = follow_attributes-Yields th cnt next flags' in
          (
            suc n,
            last,
            there n res_id next last refers steps,
            omega arith,
            rw same
                (elim ending [ inl ends ↦ inl ends | inr (all, deep) ↦ inr (omega arith, deep) ]),
          )
    ]

-- getAttribute ends, also where attributes lead in a circle: it follows at most 20 of them in the
-- theme. It ends with BAD_INDEX and no value at an attribute that the theme has no entry or an empty
-- one for, or at one that refers to yet another after 20; and else with the value of the entry, which
-- is neither empty nor an attribute, and its block.
pub get_attribute-Yields :
    (th : Theme) (res_id : ℕ)
    → (n last : ℕ) × Steps (Refers th) n res_id last
      × (n ≤ 20)
      × (Yields th last (get_attribute th res_id)
          ⊎ ((n ≡ 20) × IsTooDeep th last (get_attribute th res_id)))
unfolding get_attribute
get_attribute-Yields th res_id = follow_attributes-Yields th 20 res_id 0
