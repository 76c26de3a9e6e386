-- ===== src/DynamicRefs/Tests.antt =====
-- Tables of package identifiers (libs/androidfw/ResourceTypes.cpp) at concrete values.
use f2ut_platform_frameworks.Prelude.{
  List, Option, [], arith, false, if◌then◌else◌, none, refl, some, ℕ, ◌==◌, ◌∷◌, ◌≡◌,
}
use f2ut_platform_frameworks.DynamicRefs.{
  DynamicRefTable, Entries, Name, add_entries, add_mapping, add_mappings, assign,
  lookup_resource_id, lookup_resource_value, merge_lookup, new_table,
}
use f2ut_platform_frameworks.DynamicRefs.Merge.{add_mappings-lookup_resource_id, first_of}

-- Names of one character, the newest entry first.
abbrev first_char : Name → ℕ
first_char [] = 0
first_char (c ∷ cs) = c

abbrev value_in : Name → List (Name × ℕ) → Option ℕ
value_in name [] = none
value_in name ((k, v) ∷ m) = if first_char k == first_char name then some v else value_in name m

abbrev letters : Entries
letters = record { value_for = value_in; add = λ name id m. (name, id) ∷ m }

-- Package `a` was built as 2 and runs as 5.
abbrev one : DynamicRefTable
one = record (new_table 9) {
  entries = ((97 ∷ []), 2) ∷ [];
  lookup_table = assign 2 5 (new_table 9).lookup_table;
}

-- Package `b` was built as 3 and runs as 6.
abbrev two : DynamicRefTable
two = record (new_table 9) {
  entries = ((98 ∷ []), 3) ∷ [];
  lookup_table = assign 3 6 (new_table 9).lookup_table;
}

one-two : (add_mappings letters two one).failed ≡ false
unfolding add_mappings add_entries merge_lookup assign new_table
one-two = refl

add_mappings-lookup_resource_id_example :
    (lookup_resource_id (add_mappings letters two one).table 0x03010002
      ≡ first_of (lookup_resource_id one 0x03010002) (lookup_resource_id two 0x03010002))
    × (lookup_resource_id (add_mappings letters two one).table 0x03010002
        ≡ first_of (lookup_resource_id two 0x03010002) (lookup_resource_id one 0x03010002))
add_mappings-lookup_resource_id_example =
    add_mappings-lookup_resource_id letters one two 0x03010002 (omega arith) one-two

translated : lookup_resource_id (add_mappings letters two one).table 0x03010002 ≡ some 0x06010002
unfolding lookup_resource_id add_mappings add_entries merge_lookup assign new_table
translated = refl

mapped_value :
    lookup_resource_value
      (add_mapping letters (97 ∷ []) 8 one).table
      (record { data_type = 7; data_ = 0x02010002 })
    ≡ some (record { data_type = 1; data_ = 0x08010002 })
unfolding lookup_resource_value lookup_resource_id add_mapping assign new_table
mapped_value = refl
