-- ===== src/Kms/Store.antt =====
-- crates/services/kms/src/store.rs: keys and the store of one account and region.
use openstack.Prelude.{
  ℕ, String, Bool, true, false, Option, none, some, List, [], Dict, get, contains_key,
  if◌then◌else◌,
}
use openstack.Prelude.Text.{has_prefix, after_last}

pub data KeyState : Type 0 where
  enabled : KeyState
  disabled : KeyState
  pending_deletion : KeyState

-- `KeyState::fmt`.
unfoldable pub to_text : KeyState → String
to_text enabled = "Enabled"
to_text disabled = "Disabled"
to_text pending_deletion = "PendingDeletion"

abbrev pub is_enabled : KeyState → Bool
is_enabled enabled = true
is_enabled disabled = false
is_enabled pending_deletion = false

abbrev pub is_pending : KeyState → Bool
is_pending enabled = false
is_pending disabled = false
is_pending pending_deletion = true

pub record KmsKey : Type 0 where
  pub key_id : String
  pub arn : String
  pub description : String
  pub key_state : KeyState
  pub created : ℕ
  pub key_material : String
  pub aliases : List String
  pub tags : Dict String

pub record KmsStore : Type 0 where
  pub keys : Dict KmsKey
  pub alias_to_key : Dict String

-- `KmsStore::new`.
abbrev pub empty : KmsStore
empty = record { keys = []; alias_to_key = [] }

-- A key by its id, by an ARN that ends in the id, or by an alias.
unfoldable pub resolve_key : KmsStore → String → Option KmsKey
unfolding after_last
resolve_key store id = elim (get id store.keys) [
  | some k ↦ some k
  | none ↦
      if has_prefix "arn:" id
      then get (after_last b'/' id) store.keys
      else if has_prefix "alias/" id
      then (elim (get id store.alias_to_key) [ none ↦ none | some key_id ↦ get key_id store.keys ])
      else none
]

-- `get_mut`: the key with the id that it is written back under.
abbrev pub key_at : KmsStore → String → Option (String × KmsKey)
key_at store key_id = elim (get key_id store.keys) [ none ↦ none | some k ↦ some (key_id, k) ]

unfoldable pub resolve_key_mut : KmsStore → String → Option (String × KmsKey)
unfolding after_last
resolve_key_mut store id =
    if contains_key id store.keys
    then key_at store id
    else if has_prefix "arn:" id
    then key_at store (after_last b'/' id)
    else if has_prefix "alias/" id
    then (elim (get id store.alias_to_key) [ none ↦ none | some key_id ↦ key_at store key_id ])
    else none
