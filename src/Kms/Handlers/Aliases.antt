-- ===== src/Kms/Handlers/Aliases.antt =====
-- crates/services/kms/src/provider.rs: the arms for aliases and tags.
use Prim.Native.String.{len}
use openstack.Prelude.{
  String, ◌++◌, not, ◌==◌, none, some, List, [], ◌∷◌, map, Dict, get, insert, remove, retain, any,
  push, unwrap_or, if◌then◌else◌,
}
use openstack.Prelude.Text.{trim_prefixes}
use openstack.Framework.Json.{Json, str, object, as_str, as_array}
use openstack.Framework.Traits.{RequestContext, DispatchResponse}
use openstack.Framework.Service.{member, Operation, reads, changes, required}
use openstack.Kms.Store.{KmsKey, KmsStore, resolve_key}
use openstack.Kms.Handlers.{done, invalid_key, reads_key, with_key}
use openstack.Kms.Handlers.Keys.{listing}

-- The alias stands once among those of the key.
abbrev pub add_alias : String → KmsKey → KmsKey
add_alias alias k =
    if any (λ a. a == alias) k.aliases then k else record k { aliases = push k.aliases alias }

-- A change of the key with the id, if there is one.
unfoldable pub change_at : String → (KmsKey → KmsKey) → Dict KmsKey → Dict KmsKey
change_at id f keys = elim (get id keys) [ none ↦ keys | some k ↦ insert id (f k) keys ]

unfoldable pub create_alias_in : String → String → KmsStore → KmsStore × DispatchResponse
unfolding change_at
create_alias_in alias target store = elim (resolve_key store target) [
  | none ↦ (store, invalid_key target)
  | some k ↦ (
    record {
      keys = change_at k.key_id (add_alias alias) store.keys;
      alias_to_key = insert alias k.key_id store.alias_to_key;
    },
    done,
  )
]

unfoldable pub create_alias : RequestContext → Operation KmsStore
unfolding create_alias_in
create_alias ctx =
    required ctx "AliasName"
      (λ alias. required ctx "TargetKeyId" (λ target. changes (create_alias_in alias target)))

-- An alias has an ARN only if its key is there.
unfoldable pub alias_json : RequestContext → Dict KmsKey → String × String → Json
unfolding trim_prefixes
alias_json ctx keys (alias, key_id) =
    let arn : String = elim (get key_id keys) [
      | none ↦ ""
      | some k ↦
          "arn:aws:kms:"
          ++ ctx.region
          ++ ":"
          ++ ctx.account_id
          ++ ":alias/"
          ++ trim_prefixes (len alias) "alias/" alias
    ] in
    object (("AliasName", str alias) ∷ ("AliasArn", str arn) ∷ ("TargetKeyId", str key_id) ∷ [])

unfoldable pub list_aliases : RequestContext → Operation KmsStore
unfolding alias_json
list_aliases ctx =
    reads (listing "Aliases" [])
      (λ store. listing "Aliases" (map (alias_json ctx store.keys) store.alias_to_key))

abbrev pub drop_alias : String → KmsKey → KmsKey
drop_alias alias k = record k { aliases = retain (λ a. not (a == alias)) k.aliases }

unfoldable pub delete_alias_in : String → KmsStore → KmsStore × DispatchResponse
unfolding change_at
delete_alias_in alias store = elim (get alias store.alias_to_key) [
  | none ↦ (store, done)
  | some key_id ↦ (
    record {
      keys = change_at key_id (drop_alias alias) store.keys;
      alias_to_key = remove alias store.alias_to_key;
    },
    done,
  )
]

unfoldable pub delete_alias : RequestContext → Operation KmsStore
unfolding delete_alias_in
delete_alias ctx = required ctx "AliasName" (λ alias. changes (delete_alias_in alias))

-- The entries that have a key and a value, both texts.
unfoldable pub insert_tags : List Json → Dict String → Dict String
unfolding member
insert_tags [] tags = tags
insert_tags (tag ∷ rest) tags = elim (member as_str "TagKey" tag) [
  | none ↦ insert_tags rest tags
  | some k ↦ elim (member as_str "TagValue" tag) [
    | none ↦ insert_tags rest tags
    | some v ↦ insert_tags rest (insert k v tags)
  ]
]

unfoldable pub remove_tags : List Json → Dict String → Dict String
remove_tags [] tags = tags
remove_tags (tag_key ∷ rest) tags = elim (as_str tag_key) [
  | none ↦ remove_tags rest tags
  | some k ↦ remove_tags rest (remove k tags)
]

abbrev pub retag : (Dict String → Dict String) → KmsKey → KmsKey × DispatchResponse
retag f k = (record k { tags = f k.tags }, done)

unfoldable pub tag_resource : RequestContext → Operation KmsStore
unfolding insert_tags
tag_resource ctx = required ctx "KeyId" (λ id.
    let tags = unwrap_or (member as_array "Tags" ctx.request_body) [] in
    changes (with_key id (retag (insert_tags tags))))

unfoldable pub untag_resource : RequestContext → Operation KmsStore
unfolding remove_tags
untag_resource ctx = required ctx "KeyId" (λ id.
    let tag_keys = unwrap_or (member as_array "TagKeys" ctx.request_body) [] in
    changes (with_key id (retag (remove_tags tag_keys))))

unfoldable pub list_resource_tags : RequestContext → Operation KmsStore
list_resource_tags ctx = required ctx "KeyId" (λ id. reads_key id (invalid_key id) (λ key.
    listing "Tags"
      (map (λ (k, v). object (("TagKey", str k) ∷ ("TagValue", str v) ∷ [])) key.tags)))
