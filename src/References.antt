-- ===== src/References.antt =====
-- References between resources in libs/androidfw/ResourceTypes.cpp: ResTable::resolveReference, and
-- getAttribute and resolveAttributeReference of ResTable::Theme. No pointer that is passed is NULL.
pub mod Ends
pub mod Attributes
pub mod Tests
use f2ut_platform_frameworks.Prelude.{
  Bool, Option, bit_or, false, if◌then◌else◌, leb, ltb, none, not, some, suc, true, zero, ℕ, ◌%◌,
  ◌&&◌, ◌+◌, ◌-◌, ◌/◌, ◌==◌, ◌>>=◌, ◌^◌,
}

-- A ssize_t: the index of a block, BAD_INDEX, or another negative value.
pub data Index : Type 0 where
  block : ℕ → Index
  bad_index : Index
  other_error : ℕ → Index

unfoldable pub is_block : Index → Bool
is_block (block i) = true
is_block bad_index = false
is_block (other_error e) = false

-- Res_value, the two fields that are read
pub record ResValue : Type 0 where
  pub data_type : ℕ
  pub data_ : ℕ

abbrev pub type_null : ℕ
type_null = 0

abbrev pub type_reference : ℕ
type_reference = 1

abbrev pub type_attribute : ℕ
type_attribute = 2

-- What getResource returns and leaves in what it was passed.
pub record Found (C : Type 0) : Type 0 where
  pub index : Index
  pub value : ResValue
  pub spec_flags : ℕ
  pub config : C

-- getResource of a table, for the value and the configuration that it is to fill in.
pub record Resources (C : Type 0) : Type 0 where
  pub get_resource : ℕ → ResValue → C → Found C

-- What resolveReference works on, and returns as the index.
pub record Resolving (C : Type 0) : Type 0 where
  pub block_index : Index
  pub value : ResValue
  pub last_ref : ℕ
  pub type_spec_flags : ℕ
  pub config : C

-- getAttribute's theme: the package of an identifier, the types of the packages that it styles, and
-- their entries.
pub record ThemeEntry : Type 0 where
  pub string_block : Index
  pub type_spec_flags : ℕ
  pub value : ResValue

pub record TypeInfo : Type 0 where
  pub num_entries : ℕ
  pub entries : ℕ → ThemeEntry

pub record Theme : Type 0 where
  pub package_index : ℕ → Option ℕ
  pub packages : ℕ → Option (ℕ → TypeInfo)

module _ {C : Type 0} where
  -- The condition of the loop, but for the count.
  unfoldable pub is_reference : Resolving C → Bool
  is_reference s =
      is_block s.block_index && (s.value.data_type == type_reference && not (s.value.data_ == 0))

  unfoldable pub look_up : Resources C → Resolving C → Found C
  look_up t s = t.get_resource s.value.data_ s.value s.config

  -- getResource has been called.
  unfoldable pub looked_up : Resources C → Resolving C → Resolving C
  looked_up t s = record s {
    last_ref = s.value.data_;
    value = (look_up t s).value;
    config = (look_up t s).config;
  }

  -- `*inoutTypeSpecFlags |= newFlags`
  unfoldable pub flagged : Resources C → Resolving C → Resolving C
  flagged t s = record (looked_up t s) {
    type_spec_flags = bit_or s.type_spec_flags (look_up t s).spec_flags;
  }

  -- `blockIndex = newIndex`
  unfoldable pub followed : Resources C → Resolving C → Resolving C
  followed t s = record (flagged t s) { block_index = (look_up t s).index }

  -- The loop, with what `count < 20` leaves.
  unfoldable pub resolve : Resources C → ℕ → Resolving C → Resolving C
  resolve t zero s = s
  resolve t (suc left) s =
      let further = resolve t left (followed t s) in
      let next : Resolving C = elim (look_up t s).index [
        | bad_index ↦ record (looked_up t s) { block_index = bad_index }
        | other_error e ↦ flagged t s
        | block i ↦ further
      ] in
      if is_reference s then next else s

  unfoldable pub resolve_reference : Resources C → Resolving C → Resolving C
  resolve_reference t s = resolve t 20 s

-- Res_GETTYPE, as an `uint32_t`
unfoldable pub type_of : ℕ → ℕ
type_of res_id = (res_id / 65536 % 256 + 2 ^ 32 - 1) % 2 ^ 32

-- The entry of a theme for an attribute, if the package, the type and the entry are there.
unfoldable pub find_entry : Theme → ℕ → Option ThemeEntry
find_entry th res_id = th.package_index res_id >>= λ p. th.packages p >>= λ types.
    let ti = types (type_of res_id) in
    let e = res_id % 65536 in
    if leb (type_of res_id) 255 && ltb e ti.num_entries then some (ti.entries e) else none

-- What getAttribute returns, the value that it sets if it does, and the flags.
pub record Attribute : Type 0 where
  pub index : Index
  pub value : Option ResValue
  pub type_spec_flags : ℕ

unfoldable pub no_attribute : ℕ → Attribute
no_attribute flags = record { index = bad_index; value = none; type_spec_flags = flags }

-- The body of the loop, and what it does with a further attribute.
unfoldable pub at_entry : Option ThemeEntry → ℕ → (ℕ → ℕ → Attribute) → Attribute
at_entry none flags further = no_attribute flags
at_entry (some te) flags further =
    let flags = bit_or flags te.type_spec_flags in
    let next = further te.value.data_ flags in
    if te.value.data_type == type_attribute
    then next
    else if not (te.value.data_type == type_null)
    then record { index = te.string_block; value = some te.value; type_spec_flags = flags }
    else no_attribute flags

-- The loop, with what `cnt` leaves.
unfoldable pub follow_attributes : Theme → ℕ → ℕ → ℕ → Attribute
follow_attributes th zero res_id flags =
    at_entry (find_entry th res_id) flags (λ id flags. no_attribute flags)
follow_attributes th (suc cnt) res_id flags =
    at_entry (find_entry th res_id) flags (follow_attributes th cnt)

unfoldable pub get_attribute : Theme → ℕ → Attribute
get_attribute th res_id = follow_attributes th 20 res_id 0

-- resolveAttributeReference
unfoldable pub resolve_attribute_reference :
    {C : Type 0} → Resources C → Theme → Resolving C → Resolving C
resolve_attribute_reference t th s =
    let a = get_attribute th s.value.data_ in
    let value : ResValue = elim a.value [ none ↦ s.value | some v ↦ v ] in
    let found = record s {
      block_index = a.index;
      value = value;
      type_spec_flags = bit_or s.type_spec_flags a.type_spec_flags;
    } in
    let resolved = resolve_reference t found in
    let plain = resolve_reference t s in
    if s.value.data_type == type_attribute
    then if is_block a.index then resolved else found
    else plain
