-- ===== src/DynamicRefs.antt =====
-- DynamicRefTable of libs/androidfw/ResourceTypes.cpp and include/androidfw/ResourceTypes.h: the
-- package identifiers that shared libraries were built with, and those that they run with.
pub mod Merge
pub mod Tests
use f2ut_platform_frameworks.Prelude.{
  Bool, List, Option, [], bit_or, false, if◌then◌else◌, none, not, some, suc, true, zero, ℕ, ◌%◌,
  ◌&&◌, ◌*◌, ◌+◌, ◌/◌, ◌==◌, ◌^◌, ◌∷◌,
}
use f2ut_platform_frameworks.References.{ResValue, type_reference}

-- Name of a package, in 16-bit characters.
abbrev pub Name : Type 0
Name = List ℕ

-- KeyedVector<String16, uint8_t>, as the list of its entries in order.
pub record Entries : Type 0 where
  -- The value at indexOfKey, if that is not negative.
  pub value_for : Name → List (Name × ℕ) → Option ℕ
  pub add : Name → ℕ → List (Name × ℕ) → List (Name × ℕ)

pub record DynamicRefTable : Type 0 where
  pub assigned_package_id : ℕ
  pub lookup_table : ℕ → ℕ
  pub entries : List (Name × ℕ)

abbrev pub app_package_id : ℕ
app_package_id = 0x7f

abbrev pub sys_package_id : ℕ
sys_package_id = 0x01

-- An assignment to an entry of the table.
unfoldable pub assign : ℕ → ℕ → (ℕ → ℕ) → ℕ → ℕ
assign i v table k = if k == i then v else table k

-- The constructor.
unfoldable pub new_table : ℕ → DynamicRefTable
new_table package_id = record {
  assigned_package_id = package_id;
  lookup_table =
      assign sys_package_id sys_package_id (assign app_package_id app_package_id (λ i. 0));
  entries = [];
}

-- A table, and whether UNKNOWN_ERROR was returned.
pub record Mapped : Type 0 where
  pub table : DynamicRefTable
  pub failed : Bool

-- The loop over the other table's entries.
unfoldable pub add_entries : Entries → List (Name × ℕ) → List (Name × ℕ) → List (Name × ℕ) × Bool
add_entries es [] mine = (mine, false)
add_entries es ((name, id) ∷ others) mine = elim (es.value_for name mine) [
  | none ↦ add_entries es others (es.add name id mine)
  | some own ↦ if not (id == own) then (mine, true) else add_entries es others mine
]

-- The loop over the lookup table, from `i` on, for `left` entries.
unfoldable pub merge_lookup : (ℕ → ℕ) → ℕ → ℕ → (ℕ → ℕ) → (ℕ → ℕ) × Bool
merge_lookup other zero i table = (table, false)
merge_lookup other (suc left) i table =
    let kept = merge_lookup other left (suc i) table in
    let taken = merge_lookup other left (suc i) (assign i (other i) table) in
    if table i == other i
    then kept
    else if table i == 0
    then taken
    else if not (other i == 0)
    then (table, true)
    else kept

unfoldable pub add_mappings : Entries → DynamicRefTable → DynamicRefTable → Mapped
add_mappings es other t =
    let (entries, conflict) = add_entries es other.entries t.entries in
    let with_entries = record t { entries = entries } in
    let (table, clash) = merge_lookup other.lookup_table 256 0 t.lookup_table in
    if not (t.assigned_package_id == other.assigned_package_id)
    then record { table = t; failed = true }
    else if conflict
    then record { table = with_entries; failed = true }
    else record { table = record with_entries { lookup_table = table }; failed = clash }

unfoldable pub add_mapping : Entries → Name → ℕ → DynamicRefTable → Mapped
add_mapping es name package_id t = elim (es.value_for name t.entries) [
  | none ↦ record { table = t; failed = true }
  | some id ↦ record {
    table = record t { lookup_table = assign id package_id t.lookup_table };
    failed = false;
  }
]

-- The identifier that lookupResourceId leaves, a word of 32 bits; `none` is UNKNOWN_ERROR.
unfoldable pub lookup_resource_id : DynamicRefTable → ℕ → Option ℕ
lookup_resource_id t res =
    let package_id = res / 2 ^ 24 in
    let translated_id = t.lookup_table package_id in
    if package_id == app_package_id
    then some res
    else if package_id == 0
    then some (bit_or res (t.assigned_package_id * 2 ^ 24))
    else if translated_id == 0
    then none
    else some (res % 2 ^ 24 + translated_id * 2 ^ 24)

abbrev pub type_dynamic_reference : ℕ
type_dynamic_reference = 7

unfoldable pub lookup_resource_value : DynamicRefTable → ResValue → Option ResValue
lookup_resource_value t value =
    let translated = elim (lookup_resource_id t value.data_) as (λ _. Option ResValue) [
      | none ↦ none
      | some res ↦ some (record { data_type = type_reference; data_ = res })
    ] in
    if not (value.data_type == type_dynamic_reference) then some value else translated
