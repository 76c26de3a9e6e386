-- ===== src/References/Tests.antt =====
-- References of libs/androidfw/ResourceTypes.cpp at concrete values.
use f2ut_platform_frameworks.Prelude.{if◌then◌else◌, refl, some, ℕ, ◌+◌, ◌<◌, ◌==◌, ◌≡◌, ◌≤◌, ◌⊎◌}
use f2ut_platform_frameworks.References.{
  Resolving, Resources, Theme, bad_index, block, flagged, followed, get_attribute, is_block,
  is_reference, look_up, looked_up, resolve, resolve_attribute_reference, resolve_reference,
  at_entry, find_entry, follow_attributes, type_of,
}
use f2ut_platform_frameworks.References.Ends.{Ends, Follows, Steps, resolve_reference-Ends}
use f2ut_platform_frameworks.References.Attributes.{IsTooDeep, Refers, Yields, get_attribute-Yields}

-- Resource 7 refers to 8, which is a string, and 9 refers to itself.
abbrev table : Resources ℕ
table = record {
  get_resource = λ res_id v c. record {
    index = if res_id == 6 then bad_index else block res_id;
    value =
        if res_id == 7
        then record { data_type = 1; data_ = 8 }
        else if res_id == 9
        then record { data_type = 1; data_ = 9 }
        else record { data_type = 3; data_ = 100 };
    spec_flags = res_id;
    config = c + 1;
  };
}

abbrev to : ℕ → Resolving ℕ
to res_id = record {
  block_index = block 0;
  value = record { data_type = 1; data_ = res_id };
  last_ref = 0;
  type_spec_flags = 0;
  config = 0;
}

resolve_reference-Ends_example :
    (n : ℕ) × (last : Resolving ℕ) × Steps (Follows table) n (to 7) last
    × ((n < 20) × Ends table last (resolve_reference table (to 7))
        ⊎ ((n ≡ 20) × (resolve_reference table (to 7) ≡ last)))
resolve_reference-Ends_example = resolve_reference-Ends table (to 7)

string_found : resolve_reference table (to 7) ≡ record {
  block_index = block 8;
  value = record { data_type = 3; data_ = 100 };
  last_ref = 8;
  type_spec_flags = 15;
  config = 2;
}
unfolding resolve_reference resolve is_reference is_block look_up looked_up flagged followed
string_found = refl

-- A circle is left after 20 references, with no error.
circle_left : resolve_reference table (to 9) ≡ record {
  block_index = block 9;
  value = record { data_type = 1; data_ = 9 };
  last_ref = 9;
  type_spec_flags = 9;
  config = 20;
}
unfolding resolve_reference resolve is_reference is_block look_up looked_up flagged followed
circle_left = refl

-- In package 1, entry 2 of type 0 is the attribute of entry 3, which is an integer.
abbrev theme : Theme
theme = record {
  package_index = λ res_id. some 1;
  packages = λ p. some λ t. record {
    num_entries = 4;
    entries = λ e. record {
      string_block = block e;
      type_spec_flags = e;
      value =
          if e == 2
          then record { data_type = 2; data_ = 65539 }
          else record { data_type = 16; data_ = 5 };
    };
  };
}

get_attribute-Yields_example :
    (n last : ℕ) × Steps (Refers theme) n 65538 last
    × (n ≤ 20)
    × (Yields theme last (get_attribute theme 65538)
        ⊎ ((n ≡ 20) × IsTooDeep theme last (get_attribute theme 65538)))
get_attribute-Yields_example = get_attribute-Yields theme 65538

attribute_found :
    (resolve_attribute_reference table theme
      (record (to 0) { value = record { data_type = 2; data_ = 65538 } })).value
    ≡ record { data_type = 16; data_ = 5 }
unfolding resolve_attribute_reference get_attribute follow_attributes at_entry find_entry type_of
    is_block resolve_reference resolve is_reference look_up looked_up flagged followed
attribute_found = refl
