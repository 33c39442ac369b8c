-- ===== src/SecretsManager/Management/Listing.antt =====
-- The cache of ListSecrets (crates/services/secretsmanager/src/provider.rs).
use openstack.Prelude.{
  ℕ, String, ◌≡◌, refl, ap, ◌∙◌, inl, inr, Bool, Option, none, some, List, [], ◌∷◌, All,
  get as map_get, get-All, insert-All, Option-cases, Bool-cases, ◌==◌, Holds, Holds-some,
}
use openstack.Framework.Traits.{RequestContext}
use openstack.Framework.Service.{Operation, perform}
use openstack.Framework.Service.Laws.{Keeps, perform-Keeps}
use openstack.State.Scoping.{new as key_new}
use openstack.State.Bundle.{get, get_mut, get_or_create, write}
use openstack.SecretsManager.Store.{Secret, SecretsManagerStore, empty}
use openstack.SecretsManager.Provider.{
  Stores, Answer, json_ok, str_param, resolve, get_secret_value, put_resolved, put_secret_value,
  update_secret,
}
use openstack.SecretsManager.Management.{
  Fresh, create_in, create_secret, describe_secret, list_json, rebuild_list_cache, list_in,
  list_secrets, delete_in, delete_secret, restore_in, restore_secret, is_live, arms, answer_of,
  dispatch,
}

-- A response in the cache is the one that would be made now.
abbrev pub IsFresh : SecretsManagerStore → Type 0
IsFresh store = Holds (λ cached. cached ≡ list_json store.secrets) store.list_cache

-- Of all stores.
abbrev pub AllFresh : Stores → Type 0
AllFresh stores = All (λ e. IsFresh e.1) stores

create_in-IsFresh :
    (name : String) (secret : Secret) (version_id : String) (store : SecretsManagerStore)
    → IsFresh store
    → IsFresh (create_in name secret version_id store).0
unfolding create_in
create_in-IsFresh name secret version_id store h =
    elim (Bool-cases (is_live (map_get name store.secrets))) [
      | inl live ↦ rw (live, create_in) h
      | inr free ↦ rw (free, create_in) tt
    ]

list_in-IsFresh : (store : SecretsManagerStore) → IsFresh store → IsFresh (list_in store).0
unfolding list_in rebuild_list_cache
list_in-IsFresh store h = elim (Option-cases store.list_cache) [
  | inl missing ↦ rw (missing, list_in) refl
  | inr (cached, found) ↦ rw (found, list_in) h
]

delete_in-IsFresh :
    (force : Bool) (now : ℕ) (id : String) (store : SecretsManagerStore)
    → IsFresh store
    → IsFresh (delete_in force now id store).0
unfolding delete_in
delete_in-IsFresh force now id store h = elim (Option-cases (resolve store id)) [
  | inl missing ↦ rw (missing, delete_in) h
  | inr ((name, s), found) ↦ elim (Bool-cases force) [
    | inl forced ↦ rw (found, forced, delete_in) tt
    | inr kept ↦ rw (found, kept, delete_in) tt
  ]
]

restore_in-IsFresh :
    (id : String) (store : SecretsManagerStore) → IsFresh store → IsFresh (restore_in id store).0
unfolding restore_in
restore_in-IsFresh id store h = elim (Option-cases (resolve store id)) [
  | inl missing ↦ rw (missing, restore_in) h
  | inr (a, found) ↦ rw (found, restore_in) tt
]

-- The stores and the store that `get_or_create` gives.
get_or_create-AllFresh :
    (stores : Stores) (a q : String) → AllFresh stores → AllFresh (get_or_create empty stores a q).0
unfolding get_or_create write
get_or_create-AllFresh stores a q h = elim (Option-cases (map_get (key_new a q) stores)) [
  | inl missing ↦ rw (missing, get_or_create) (insert-All IsFresh _ empty stores tt h)
  | inr (store, found) ↦ rw (found, get_or_create) h
]

write-AllFresh :
    (stores : Stores) (a q : String) (store : SecretsManagerStore)
    → IsFresh store
    → AllFresh stores
    → AllFresh (write stores a q store)
unfolding write
write-AllFresh stores a q store p h = insert-All IsFresh (key_new a q) store stores p h

module _ (fresh : Fresh) (ctx : RequestContext) (stores : Stores) (h : AllFresh stores) where
  created-AllFresh : AllFresh (get_or_create empty stores ctx.account_id ctx.region).0
  created-AllFresh = get_or_create-AllFresh stores ctx.account_id ctx.region h

  -- An operation that keeps the cache fresh.
  kept :
      (operation : Operation SecretsManagerStore)
      → Keeps IsFresh operation
      → AllFresh (perform empty ctx stores operation).0
  kept operation k = perform-Keeps IsFresh empty ctx stores operation tt k h

  create_secret-AllFresh : AllFresh (perform empty ctx stores (create_secret fresh ctx)).0
  unfolding create_secret
  create_secret-AllFresh =
      kept (create_secret fresh ctx) (elim (Option-cases (str_param ctx "Name")) [
        | inl missing ↦ rw (missing, create_secret, Keeps) tt
        | inr (name, found) ↦ rw (found, create_secret, Keeps) (create_in-IsFresh name _ _)
      ])

  describe_secret-AllFresh : AllFresh (perform empty ctx stores (describe_secret ctx)).0
  unfolding describe_secret
  describe_secret-AllFresh =
      kept (describe_secret ctx) (elim (Option-cases (str_param ctx "SecretId")) [
        | inl missing ↦ rw (missing, describe_secret, Keeps) tt
        | inr (id, found) ↦ rw (found, describe_secret, Keeps) tt
      ])

  list_secrets-AllFresh : AllFresh (perform empty ctx stores list_secrets).0
  unfolding list_secrets
  list_secrets-AllFresh = kept list_secrets list_in-IsFresh

  delete_secret-AllFresh : AllFresh (perform empty ctx stores (delete_secret fresh ctx)).0
  unfolding delete_secret
  delete_secret-AllFresh =
      kept (delete_secret fresh ctx) (elim (Option-cases (str_param ctx "SecretId")) [
        | inl missing ↦ rw (missing, delete_secret, Keeps) tt
        | inr (id, found) ↦ rw (found, delete_secret, Keeps) (delete_in-IsFresh _ fresh.now id)
      ])

  restore_secret-AllFresh : AllFresh (perform empty ctx stores (restore_secret ctx)).0
  unfolding restore_secret
  restore_secret-AllFresh =
      kept (restore_secret ctx) (elim (Option-cases (str_param ctx "SecretId")) [
        | inl missing ↦ rw (missing, restore_secret, Keeps) tt
        | inr (id, found) ↦ rw (found, restore_secret, Keeps) (restore_in-IsFresh id)
      ])

  get_secret_value-AllFresh : AllFresh (get_secret_value ctx stores).0
  unfolding get_secret_value
  get_secret_value-AllFresh = elim (Option-cases (str_param ctx "SecretId")) [
    | inl missing ↦ rw (missing, get_secret_value) h
    | inr (id, found) ↦ elim (Option-cases (get stores ctx.account_id ctx.region)) [
      | inl absent ↦ rw (found, absent, get_secret_value) h
      | inr (store, there) ↦ elim (Option-cases (resolve store id)) [
        | inl unknown ↦ rw (found, there, unknown, get_secret_value) h
        | inr (a, known) ↦ rw (found, there, known, get_secret_value) h
      ]
    ]
  ]

  put_resolved-AllFresh :
      (now : ℕ) (uuid id : String) (created : Stores) (store : SecretsManagerStore)
      (o : Option (String × Secret))
      → AllFresh created
      → AllFresh (put_resolved now uuid ctx id created store o).0
  unfolding put_resolved
  put_resolved-AllFresh now uuid id created store none k = k
  put_resolved-AllFresh now uuid id created store (some (name, s)) k =
      write-AllFresh created ctx.account_id ctx.region _ tt k

  put_secret_value-AllFresh :
      (now : ℕ) (uuid : String) → AllFresh (put_secret_value now uuid ctx stores).0
  unfolding put_secret_value
  put_secret_value-AllFresh now uuid = elim (Option-cases (str_param ctx "SecretId")) [
    | inl missing ↦ rw (missing, put_secret_value) h
    | inr (id, found) ↦
        rw (found, put_secret_value)
          (put_resolved-AllFresh now uuid id _
            (get_or_create empty stores ctx.account_id ctx.region).1 _ created-AllFresh)
  ]

  update_secret-AllFresh :
      (now : ℕ) (uuid : String) → AllFresh (update_secret now uuid ctx stores).0
  unfolding update_secret
  update_secret-AllFresh now uuid = elim (Option-cases (str_param ctx "SecretId")) [
    | inl missing ↦ rw (missing, update_secret) h
    | inr (id, found) ↦
        elim (Option-cases (resolve (get_or_create empty stores ctx.account_id ctx.region).1 id)) [
          | inl unknown ↦ rw (found, unknown, update_secret) created-AllFresh
          | inr (a, known) ↦
              rw (found, known, update_secret)
                (write-AllFresh _ ctx.account_id ctx.region _ tt created-AllFresh)
        ]
  ]

  answer_of-AllFresh :
      (op : String) (answers : List (String × Answer)) (others : Answer)
      → All (λ e. AllFresh e.1.0) answers
      → AllFresh others.0
      → AllFresh (answer_of op answers others).0
  unfolding answer_of
  answer_of-AllFresh op [] others k l = l
  answer_of-AllFresh op ((name, answer) ∷ rest) others (here, k) l =
      elim (Bool-cases (op == name)) [
        | inl same ↦ rw (same, answer_of) here
        | inr other ↦ rw (other, answer_of) (answer_of-AllFresh op rest others k l)
      ]

  dispatch-AllFresh : AllFresh (dispatch fresh ctx stores).0
  unfolding dispatch arms
  dispatch-AllFresh =
      answer_of-AllFresh ctx.operation (arms fresh ctx stores) _
        (
          create_secret-AllFresh,
          (
            get_secret_value-AllFresh,
            (
              put_secret_value-AllFresh fresh.now fresh.first_uuid,
              (
                update_secret-AllFresh fresh.now fresh.first_uuid,
                (
                  describe_secret-AllFresh,
                  (list_secrets-AllFresh, (delete_secret-AllFresh, (restore_secret-AllFresh, tt))),
                ),
              ),
            ),
          ),
        )
        h

-- The stores after a sequence of requests, each with what it draws.
unfoldable pub after : List (Fresh × RequestContext) → Stores → Stores
unfolding dispatch
after [] stores = stores
after ((fresh, ctx) ∷ requests) stores = after requests (dispatch fresh ctx stores).0

after-AllFresh :
    (requests : List (Fresh × RequestContext)) (stores : Stores)
    → AllFresh stores
    → AllFresh (after requests stores)
unfolding after
after-AllFresh [] stores h = h
after-AllFresh ((fresh, ctx) ∷ requests) stores h =
    after-AllFresh requests (dispatch fresh ctx stores).0 (dispatch-AllFresh fresh ctx stores h)

list_in-answer :
    (store : SecretsManagerStore)
    → IsFresh store
    → (list_in store).1 ≡ json_ok (list_json store.secrets)
unfolding list_in rebuild_list_cache
list_in-answer store h = elim (Option-cases store.list_cache) [
  | inl missing ↦ rw (missing, list_in) refl
  | inr (cached, found) ↦
      rw (found, list_in)
        (ap json_ok (Holds-some (λ c. c ≡ list_json store.secrets) store.list_cache cached found h))
]

dispatch-list_secrets :
    (fresh : Fresh) (ctx : RequestContext) (stores : Stores)
    → ctx.operation ≡ "ListSecrets"
    → dispatch fresh ctx stores ≡ perform empty ctx stores list_secrets
unfolding dispatch arms answer_of
dispatch-list_secrets fresh ctx stores op = rw (op, dispatch, answer_of) refl

-- However a new provider of secrets has been used, by any sequence of requests, ListSecrets answers with
-- the secrets that the store of its account and region then has and that are not deleted, whether it
-- finds a response in the cache or makes it.
pub after-list_secrets :
    (requests : List (Fresh × RequestContext)) (fresh : Fresh) (ctx : RequestContext)
    (store : SecretsManagerStore)
    → ctx.operation ≡ "ListSecrets"
    → get (after requests []) ctx.account_id ctx.region ≡ some store
    → (dispatch fresh ctx (after requests [])).1 ≡ json_ok (list_json store.secrets)
unfolding perform list_secrets get get_mut
after-list_secrets requests fresh ctx store op found =
    ap (λ a. a.1) (dispatch-list_secrets fresh ctx (after requests []) op)
    ∙ rw (found, perform, list_secrets)
        (list_in-answer store
          (get-All IsFresh _ (after requests []) store found (after-AllFresh requests [] tt)))
