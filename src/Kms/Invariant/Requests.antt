-- ===== src/Kms/Invariant/Requests.antt =====
-- The invariant of the store of keys under any sequence of requests to `KmsProvider::dispatch`
-- (crates/services/kms/src/provider.rs).
use openstack.Prelude.{
  String, ◌≡◌, refl, inl, inr, List, [], ◌∷◌, get, insert, remove, contains_key, All, any, ◌==◌,
  ◌||◌, Option-cases, Bool-cases, remove-AllAt, insert-AllAt, unwrap_or, true, ap, is_some,
}
use openstack.Framework.Json.{as_u64}
use openstack.Framework.Traits.{RequestContext, DispatchResponse}
use openstack.Framework.Service.{Operation, required, changes, not_implemented, member, as_i64}
use openstack.Framework.Service.Laws.{Keeps, require-Keeps, route-Keeps, perform-Keeps}
use openstack.State.Bundle.{AccountRegionBundle}
use openstack.Kms.Store.{KmsKey, KmsStore, empty, resolve_key, is_pending}
use openstack.Kms.Handlers.{Runtime, Fresh, with_key}
use openstack.Kms.Handlers.Keys.{
  rand_hex, new_key, create_key, describe_key, list_keys, enable_key, disable_key,
  schedule_key_deletion, cancel_in, cancel_key_deletion,
}
use openstack.Kms.Handlers.Aliases.{
  create_alias_in, delete_alias_in, add_alias, create_alias, list_aliases, delete_alias,
  tag_resource, untag_resource, list_resource_tags,
}
use openstack.Kms.Handlers.Ciphers.{
  encrypt, decrypt, generate_data_key, generate_random, sign, verify, filled, with_algorithm,
}
use openstack.Kms.Provider.{arms, arm, dispatch}
use openstack.Kms.Invariant.{
  IsSound, KeepsId, insert-IsSound, change_at-IsSound, with_key-IsSound, resolve_key-keyed,
}

add_alias-key_id : (alias : String) (k : KmsKey) → (add_alias alias k).key_id ≡ k.key_id
add_alias-key_id alias k = elim (Bool-cases (any (λ a. a == alias) k.aliases)) [
  | inl there ↦ rw there refl
  | inr free ↦ rw free refl
]

cancel_in-KeepsId : KeepsId cancel_in
unfolding cancel_in
cancel_in-KeepsId k = elim (Bool-cases (is_pending k.key_state)) [
  | inl pending ↦ rw (pending, cancel_in) refl
  | inr other ↦ rw (other, cancel_in) refl
]

-- The key that a new alias leads to stays in the store.
aliased-IsSound :
    (store : KmsStore) (alias id : String)
    → contains_key id store.keys ≡ true
    → IsSound store
    → IsSound record store { alias_to_key = insert alias id store.alias_to_key }
aliased-IsSound store alias id there h = record {
  keyed = h.keyed;
  aliased =
      insert-AllAt (λ a i. contains_key i store.keys ≡ true) alias id store.alias_to_key there
        h.aliased;
}

create_alias_in-IsSound :
    (alias target : String) (store : KmsStore)
    → IsSound store
    → IsSound (create_alias_in alias target store).0
unfolding create_alias_in
create_alias_in-IsSound alias target store h = elim (Option-cases (resolve_key store target)) [
  | inl missing ↦ rw (missing, create_alias_in) h
  | inr (k, found) ↦
      let there = ap is_some (resolve_key-keyed store target k h found) in
      rw (found, create_alias_in)
        (change_at-IsSound k.key_id (add_alias alias)
          record store { alias_to_key = insert alias k.key_id store.alias_to_key }
          (add_alias-key_id alias) (aliased-IsSound store alias k.key_id there h))
]

delete_alias_in-IsSound :
    (alias : String) (store : KmsStore) → IsSound store → IsSound (delete_alias_in alias store).0
unfolding delete_alias_in
delete_alias_in-IsSound alias store h = elim (Option-cases (get alias store.alias_to_key)) [
  | inl missing ↦ rw (missing, delete_alias_in) h
  | inr (id, found) ↦
      rw (found, delete_alias_in)
        (change_at-IsSound id _ record store { alias_to_key = remove alias store.alias_to_key }
          (λ k. refl)
          record {
            keyed = h.keyed;
            aliased =
                remove-AllAt (λ a i. contains_key i store.keys ≡ true) alias store.alias_to_key
                  h.aliased;
          })
]

module _ (r : Runtime) (fresh : Fresh) (ctx : RequestContext) where
  need :
      (key : String) (operation : String → Operation KmsStore)
      → ((v : String) → Keeps IsSound (operation v))
      → Keeps IsSound (required ctx key operation)
  need key operation h = require-Keeps IsSound ctx key "ValidationException" operation h

  -- An operation that changes one key.
  changes_key :
      (key : String) (f : String → KmsKey → KmsKey × DispatchResponse)
      → ((id : String) → KeepsId (f id))
      → Keeps IsSound (required ctx key (λ id. changes (with_key id (f id))))
  changes_key key f same = need key _ (λ id store h. with_key-IsSound id (f id) store (same id) h)

  create_key-Keeps : Keeps IsSound (create_key r fresh ctx)
  unfolding create_key
  create_key-Keeps store h = insert-IsSound store _ (new_key r fresh ctx) refl h

  describe_key-Keeps : Keeps IsSound (describe_key ctx)
  unfolding describe_key
  describe_key-Keeps = need _ _ (λ id. tt)

  list_keys-Keeps : Keeps IsSound list_keys
  unfolding list_keys
  list_keys-Keeps = tt

  enable_key-Keeps : Keeps IsSound (enable_key ctx)
  unfolding enable_key
  enable_key-Keeps = changes_key _ _ (λ id k. refl)

  disable_key-Keeps : Keeps IsSound (disable_key ctx)
  unfolding disable_key
  disable_key-Keeps = changes_key _ _ (λ id k. refl)

  schedule_key_deletion-Keeps : Keeps IsSound (schedule_key_deletion r fresh ctx)
  unfolding schedule_key_deletion
  schedule_key_deletion-Keeps = need _ _ (λ id.
      elim (Option-cases (
        r.days_later fresh.now
          (unwrap_or (member as_i64 "PendingWindowInDays" ctx.request_body) 30))) [
            | inl panic ↦ rw (panic, Keeps) tt
            | inr (date, found) ↦
                rw (found, Keeps) (λ store. with_key-IsSound id _ store (λ k. refl))
          ])

  cancel_key_deletion-Keeps : Keeps IsSound (cancel_key_deletion ctx)
  unfolding cancel_key_deletion
  cancel_key_deletion-Keeps = changes_key _ _ (λ id. cancel_in-KeepsId)

  create_alias-Keeps : Keeps IsSound (create_alias ctx)
  unfolding create_alias
  create_alias-Keeps = need _ _ (λ alias. need _ _ (λ target. create_alias_in-IsSound alias target))

  list_aliases-Keeps : Keeps IsSound (list_aliases ctx)
  unfolding list_aliases
  list_aliases-Keeps = tt

  delete_alias-Keeps : Keeps IsSound (delete_alias ctx)
  unfolding delete_alias
  delete_alias-Keeps = need _ _ (λ alias. delete_alias_in-IsSound alias)

  tag_resource-Keeps : Keeps IsSound (tag_resource ctx)
  unfolding tag_resource
  tag_resource-Keeps = changes_key _ _ (λ id k. refl)

  untag_resource-Keeps : Keeps IsSound (untag_resource ctx)
  unfolding untag_resource
  untag_resource-Keeps = changes_key _ _ (λ id k. refl)

  list_resource_tags-Keeps : Keeps IsSound (list_resource_tags ctx)
  unfolding list_resource_tags
  list_resource_tags-Keeps = need _ _ (λ id. tt)

  encrypt-Keeps : Keeps IsSound (encrypt r ctx)
  unfolding encrypt
  encrypt-Keeps = need _ _ (λ id. need _ _ (λ plaintext. tt))

  decrypt-Keeps : Keeps IsSound (decrypt r ctx)
  unfolding decrypt
  decrypt-Keeps = need _ _ (λ ciphertext. elim (Option-cases (r.decode_base64 ciphertext)) [
    | inl bad ↦ rw (bad, Keeps) tt
    | inr (decoded, good) ↦ rw (good, Keeps) tt
  ])

  generate_data_key-Keeps : Keeps IsSound (generate_data_key r fresh ctx)
  unfolding generate_data_key
  generate_data_key-Keeps = need _ _ (λ id. tt)

  generate_random-Keeps : Keeps IsSound (generate_random r fresh ctx)
  unfolding generate_random
  generate_random-Keeps =
      let count = unwrap_or (member as_u64 "NumberOfBytes" ctx.request_body) 32 in
      elim (Option-cases (rand_hex r.hash_string count fresh.seed)) [
        | inl crash ↦ rw (crash, Keeps) tt
        | inr (random, made) ↦ rw (made, Keeps) tt
      ]

  need_filled :
      (key : String) (f : String → Operation KmsStore)
      → ((v : String) → Keeps IsSound (f v))
      → Keeps IsSound (filled ctx key f)
  need_filled key f h = need key _ (λ v. elim (Bool-cases (v == "")) [
    | inl blank ↦ rw (blank, Keeps) tt
    | inr full ↦ rw (full, Keeps) (h v)
  ])

  need_algorithm :
      (operation : Operation KmsStore)
      → Keeps IsSound operation
      → Keeps IsSound (with_algorithm ctx operation)
  need_algorithm operation h = need _ _ (λ name.
      elim (Bool-cases (name == "HMAC_SHA_256" || name == "HMAC_SHA256")) [
        | inl known ↦ rw (known, Keeps) h
        | inr other ↦ rw (other, Keeps) tt
      ])

  sign-Keeps : Keeps IsSound (sign r ctx)
  unfolding sign
  sign-Keeps = need_filled _ _ (λ id. need_filled _ _ (λ message. need_algorithm _ tt))

  verify-Keeps : Keeps IsSound (verify r ctx)
  unfolding verify
  verify-Keeps =
      need_filled _ _
        (λ id. need_filled _ _ (λ message. need_filled _ _ (λ signature. need_algorithm _ tt)))

  not_implemented-Keeps : Keeps IsSound (not_implemented ctx.operation)
  unfolding not_implemented
  not_implemented-Keeps = tt

  arm-Keeps : Keeps IsSound (arm r fresh ctx)
  unfolding arm arms
  arm-Keeps =
      route-Keeps IsSound ctx.operation (arms r fresh ctx) (not_implemented ctx.operation)
        (
          create_key-Keeps,
          (
            describe_key-Keeps,
            (
              list_keys-Keeps,
              (
                enable_key-Keeps,
                (
                  disable_key-Keeps,
                  (
                    schedule_key_deletion-Keeps,
                    (
                      cancel_key_deletion-Keeps,
                      (
                        create_alias-Keeps,
                        (
                          list_aliases-Keeps,
                          (
                            delete_alias-Keeps,
                            (
                              tag_resource-Keeps,
                              (
                                untag_resource-Keeps,
                                (
                                  list_resource_tags-Keeps,
                                  (
                                    encrypt-Keeps,
                                    (
                                      decrypt-Keeps,
                                      (
                                        generate_data_key-Keeps,
                                        (
                                          generate_data_key-Keeps,
                                          (generate_random-Keeps, (sign-Keeps, (verify-Keeps, tt))),
                                        ),
                                      ),
                                    ),
                                  ),
                                ),
                              ),
                            ),
                          ),
                        ),
                      ),
                    ),
                  ),
                ),
              ),
            ),
          ),
        )
        not_implemented-Keeps

-- The stores after a sequence of requests, each with what it draws.
unfoldable pub after :
    Runtime
    → List (Fresh × RequestContext)
    → AccountRegionBundle KmsStore
    → AccountRegionBundle KmsStore
unfolding dispatch
after r [] stores = stores
after r ((fresh, ctx) ∷ requests) stores = after r requests (dispatch r fresh ctx stores).0

dispatch-IsSound :
    (r : Runtime) (fresh : Fresh) (ctx : RequestContext) (stores : AccountRegionBundle KmsStore)
    → All (λ e. IsSound e.1) stores
    → All (λ e. IsSound e.1) (dispatch r fresh ctx stores).0
unfolding dispatch
dispatch-IsSound r fresh ctx stores h =
    perform-Keeps IsSound empty ctx stores (arm r fresh ctx) record { keyed = tt; aliased = tt }
      (arm-Keeps r fresh ctx) h

after-IsSound_from :
    (r : Runtime) (requests : List (Fresh × RequestContext)) (stores : AccountRegionBundle KmsStore)
    → All (λ e. IsSound e.1) stores
    → All (λ e. IsSound e.1) (after r requests stores)
unfolding after
after-IsSound_from r [] stores h = h
after-IsSound_from r ((fresh, ctx) ∷ requests) stores h =
    after-IsSound_from r requests (dispatch r fresh ctx stores).0
      (dispatch-IsSound r fresh ctx stores h)

-- Whatever requests are made of a new provider of keys, in whatever order and whatever ids they draw, in
-- the store of every account and region each key stands under its own id and each alias leads to a key.
pub after-IsSound :
    (r : Runtime) (requests : List (Fresh × RequestContext))
    → All (λ e. IsSound e.1) (after r requests [])
after-IsSound r requests = after-IsSound_from r requests [] tt
