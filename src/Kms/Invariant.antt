-- ===== src/Kms/Invariant.antt =====
-- The invariant of the store of keys under any sequence of requests (crates/services/kms/src/provider.rs).
pub mod Requests
use openstack.Prelude.{
  ℕ, String, ◌≡◌, refl, sym, ap, ◌∙◌, subst, inl, inr, Bool, true, false, Option, none, some, List,
  [], ◌∷◌, Dict, get, insert, remove, contains_key, All, All-map, Option-cases, Bool-cases, Holds,
  Holds-some, insert-AllAt, remove-AllAt, get-AllAt, contains_key-insert, if◌then◌else◌, ◌==◌,
  is_some, any,
}
use openstack.Prelude.Text.{has_prefix, after_last}
use openstack.Framework.Json.{Json}
use openstack.Framework.Traits.{RequestContext, DispatchResponse}
use openstack.Framework.Service.{Operation, require, not_implemented, route}
use openstack.Framework.Service.Laws.{Keeps, require-Keeps, route-Keeps, perform-Keeps}
use openstack.State.Bundle.{AccountRegionBundle}
use openstack.Kms.Store.{KmsKey, KmsStore, empty, key_at, resolve_key, resolve_key_mut}
use openstack.Kms.Handlers.{Runtime, Fresh, with_key}
use openstack.Kms.Handlers.Aliases.{
  change_at, create_alias_in, delete_alias_in, add_alias, drop_alias,
}

-- Each key stands under its own id, and each alias leads to a key.
pub record IsSound (store : KmsStore) : Type 0 where
  pub keyed : All (λ e. e.1.key_id ≡ e.0) store.keys
  pub aliased : All (λ e. contains_key e.1 store.keys ≡ true) store.alias_to_key

key_at-found :
    (store : KmsStore) (id : String) → Holds (λ a. get a.0 store.keys ≡ some a.1) (key_at store id)
key_at-found store id = elim (Option-cases (get id store.keys)) [
  | inl missing ↦ rw (missing, Holds, key_at) tt
  | inr (k, found) ↦ rw (found, Holds, key_at) found
]

-- What `resolve_key_mut` gives stands in the store where it says.
pub resolve_key_mut-found :
    (store : KmsStore) (id : String)
    → Holds (λ a. get a.0 store.keys ≡ some a.1) (resolve_key_mut store id)
unfolding resolve_key_mut
resolve_key_mut-found store id = elim (Bool-cases (contains_key id store.keys)) [
  | inl direct ↦ rw (direct, resolve_key_mut) (key_at-found store id)
  | inr indirect ↦ elim (Bool-cases (has_prefix "arn:" id)) [
    | inl arn ↦ rw (indirect, arn, resolve_key_mut) (key_at-found store (after_last b'/' id))
    | inr other ↦ elim (Bool-cases (has_prefix "alias/" id)) [
      | inl alias ↦ elim (Option-cases (get id store.alias_to_key)) [
        | inl missing ↦ rw (indirect, other, alias, missing, resolve_key_mut, Holds) tt
        | inr (key_id, found) ↦
            rw (indirect, other, alias, found, resolve_key_mut) (key_at-found store key_id)
      ]
      | inr neither ↦ rw (indirect, other, neither, resolve_key_mut, Holds) tt
    ]
  ]
]

-- The key of a place.
abbrev pub key_of : Option (String × KmsKey) → Option KmsKey
key_of none = none
key_of (some a) = some a.1

key_at-key_of : (store : KmsStore) (id : String) → get id store.keys ≡ key_of (key_at store id)
key_at-key_of store id = elim (Option-cases (get id store.keys)) [
  | inl missing ↦ rw (missing, key_at) refl
  | inr (k, found) ↦ rw (found, key_at) refl
]

-- A key identifier is resolved for reading and for writing alike: by the id, by an ARN, by an alias, and
-- where nothing is found.
pub resolve_key-eq-resolve_key_mut :
    (store : KmsStore) (id : String) → resolve_key store id ≡ key_of (resolve_key_mut store id)
unfolding resolve_key resolve_key_mut
resolve_key-eq-resolve_key_mut store id = elim (Option-cases (get id store.keys)) [
  | inr (k, found) ↦ rw (found, resolve_key, resolve_key_mut, key_at) refl
  | inl missing ↦ elim (Bool-cases (has_prefix "arn:" id)) [
    | inl arn ↦
        rw (missing, arn, resolve_key, resolve_key_mut) (key_at-key_of store (after_last b'/' id))
    | inr other ↦ elim (Bool-cases (has_prefix "alias/" id)) [
      | inl alias ↦ elim (Option-cases (get id store.alias_to_key)) [
        | inl none_ ↦ rw (missing, other, alias, none_, resolve_key, resolve_key_mut) refl
        | inr (key_id, found) ↦
            rw (missing, other, alias, found, resolve_key, resolve_key_mut)
              (key_at-key_of store key_id)
      ]
      | inr neither ↦ rw (missing, other, neither, resolve_key, resolve_key_mut) refl
    ]
  ]
]

-- The place of a key that is resolved.
pub resolve_key-place :
    (store : KmsStore) (id : String) (k : KmsKey)
    → resolve_key store id ≡ some k
    → (place : String) × (resolve_key_mut store id ≡ some (place, k))
      × (get place store.keys ≡ some k)
resolve_key-place store id k e = elim (Option-cases (resolve_key_mut store id)) [
  | inl missing ↦
      absurd (cc (sym (resolve_key-eq-resolve_key_mut store id ∙ ap key_of missing) ∙ e))
  | inr (a, found) ↦
      let same : a.1 ≡ k =
        cc (sym (resolve_key-eq-resolve_key_mut store id ∙ ap key_of found) ∙ e) in
      let stands =
        Holds-some (λ a. get a.0 store.keys ≡ some a.1) _ a found
          (resolve_key_mut-found store id) in
      (a.0, found ∙ ap (λ k. some (a.0, k)) same, stands ∙ ap (λ k. some k) same)
]

-- A key that is found stands under its own id.
pub resolve_key-keyed :
    (store : KmsStore) (id : String) (k : KmsKey)
    → IsSound store
    → resolve_key store id ≡ some k
    → get k.key_id store.keys ≡ some k
resolve_key-keyed store id k h e =
    let (place, found, stands) = resolve_key-place store id k e in
    let name = get-AllAt (λ j w. w.key_id ≡ j) place store.keys k stands h.keyed in
    ap (λ j. get j store.keys) name ∙ stands

-- A key under its id keeps every alias leading to a key.
insert-IsSound :
    (store : KmsStore) (id : String) (k : KmsKey)
    → k.key_id ≡ id
    → IsSound store
    → IsSound record store { keys = insert id k store.keys }
insert-IsSound store id k name h = record {
  keyed = insert-AllAt (λ j w. w.key_id ≡ j) id k store.keys name h.keyed;
  aliased =
      All-map (λ e. contains_key e.1 store.keys ≡ true)
        (λ e. contains_key e.1 (insert id k store.keys) ≡ true)
        (λ e there. contains_key-insert id e.1 k store.keys there) store.alias_to_key h.aliased;
}

-- The change keeps the id of its key.
abbrev pub KeepsId : (KmsKey → KmsKey × DispatchResponse) → Type 0
KeepsId f = (k : KmsKey) → (f k).0.key_id ≡ k.key_id

pub with_key-IsSound :
    (id : String) (f : KmsKey → KmsKey × DispatchResponse) (store : KmsStore)
    → KeepsId f
    → IsSound store
    → IsSound (with_key id f store).0
unfolding with_key
with_key-IsSound id f store same h = elim (Option-cases (resolve_key_mut store id)) [
  | inl missing ↦ rw (missing, with_key) h
  | inr ((place, k), found) ↦
      let stands =
        Holds-some (λ a. get a.0 store.keys ≡ some a.1) _ (place, k) found
          (resolve_key_mut-found store id) in
      let name = get-AllAt (λ j w. w.key_id ≡ j) place store.keys k stands h.keyed in
      rw (found, with_key) (insert-IsSound store place (f k).0 (same k ∙ name) h)
]

change_at-IsSound :
    (id : String) (f : KmsKey → KmsKey) (store : KmsStore)
    → ((k : KmsKey) → (f k).key_id ≡ k.key_id)
    → IsSound store
    → IsSound record store { keys = change_at id f store.keys }
unfolding change_at
change_at-IsSound id f store same h = elim (Option-cases (get id store.keys)) [
  | inl missing ↦ rw (missing, change_at) h
  | inr (k, found) ↦
      let name = get-AllAt (λ j w. w.key_id ≡ j) id store.keys k found h.keyed in
      rw (found, change_at) (insert-IsSound store id (f k) (same k ∙ name) h)
]
