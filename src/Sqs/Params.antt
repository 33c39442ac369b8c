-- ===== src/Sqs/Params.antt =====
-- crates/services/sqs/src/provider.rs, lines 285 to 336: request parameters with an index in their names.
pub mod Enough
use openstack.Prelude.{
  ℕ, zero, suc, ◌+◌, String, ◌++◌, Option, none, some, List, [], ◌∷◌, Dict, get, insert, length,
  unwrap_or, ◌-◌, ◌%◌, ◌^◌, ltb, if◌then◌else◌,
}
use openstack.Prelude.Format.{to_string}
use openstack.Prelude.Text.{after_last}
use openstack.Sqs.Message.{MessageAttributeValue}

abbrev pub Params : Type 0
Params = Dict String

-- The text of the `i32` that `i` steps from 0 give: a release build wraps round at 2 ^ 31.
unfoldable pub print_index : ℕ → String
unfolding to_string
print_index i =
    let pattern = i % 2 ^ 32 in
    if ltb pattern (2 ^ 31) then to_string pattern else "-" ++ to_string (2 ^ 32 - pattern)

-- `format!("{prefix}.{i}{suffix}")`.
unfoldable pub indexed_key : String → ℕ → String → String
unfolding print_index
indexed_key prefix i suffix = prefix ++ ("." ++ (print_index i ++ suffix))

-- The loops over `i = 1, 2, …` collect what they find until an index is missing. The parameters do
-- not change meanwhile.
unfoldable pub entries {ℓ} : {A : Type ℓ} → ℕ → (ℕ → Option A) → ℕ → List A
entries zero find i = []
entries (suc fuel) find i = elim (find i) [ none ↦ [] | some a ↦ a ∷ entries fuel find (i + 1) ]

-- One more round than there are parameters. Fewer than 2 ^ 31 of them do not bring the index to its end;
-- where it wraps round and every index has its parameter, the loop of the source does not stop.
unfoldable pub all_entries {ℓ} : {A : Type ℓ} → Params → (ℕ → Option A) → List A
unfolding entries
all_entries params find = entries (length params + 1) find 1

-- Two parameters that must both be there.
abbrev pub both : Option String → Option String → Option (String × String)
both none b = none
both (some a) none = none
both (some a) (some b) = some (a, b)

unfoldable pub name_value_at : Params → String → ℕ → Option (String × String)
unfolding indexed_key get
name_value_at params prefix i =
    both (get (indexed_key prefix i ".Name") params) (get (indexed_key prefix i ".Value") params)

abbrev pub insert_all {ℓ} : {V : Type ℓ} → List (String × V) → Dict V → Dict V
insert_all [] m = m
insert_all ((k, v) ∷ kvs) m = insert_all kvs (insert k v m)

-- `extract_indexed_kv`.
unfoldable pub extract_indexed_kv : Params → String → Dict String
unfolding all_entries name_value_at insert
extract_indexed_kv params prefix = insert_all (all_entries params (name_value_at params prefix)) []

abbrev pub attribute_of : Params → ℕ → String → String × MessageAttributeValue
attribute_of params i name = (
  name,
  record {
    data_type = unwrap_or (get (indexed_key "MessageAttribute" i ".Value.DataType") params) "";
    string_value = get (indexed_key "MessageAttribute" i ".Value.StringValue") params;
    binary_value = none;
  },
)

unfoldable pub message_attribute_at : Params → ℕ → Option (String × MessageAttributeValue)
unfolding indexed_key get
message_attribute_at params i = elim (get (indexed_key "MessageAttribute" i ".Name") params) [
  | none ↦ none
  | some name ↦ some (attribute_of params i name)
]

-- `extract_message_attributes`.
unfoldable pub extract_message_attributes : Params → Dict MessageAttributeValue
unfolding all_entries message_attribute_at insert
extract_message_attributes params = insert_all (all_entries params (message_attribute_at params)) []

-- `queue_name_from_url`: the last part of the path.
unfoldable pub queue_name_from_url : String → String
unfolding after_last
queue_name_from_url url = after_last b'/' url
