-- ===== src/Kms/Keys.antt =====
-- What a change of a key is to the operations that come after it (crates/services/kms/src/provider.rs).
use openstack.Prelude.{
  String, ◌≡◌, refl, sym, ap, ◌∙◌, subst, inl, inr, none, some, Dict, get, insert, get-insert,
  Option-cases, Bool-cases, eq_iff, eq_refl, ◌==◌,
}
use openstack.Prelude.Text.{has_prefix, after_last}
use openstack.Framework.Traits.{DispatchResponse}
use openstack.Kms.Store.{KmsKey, KmsStore, key_at, resolve_key, resolve_key_mut}
use openstack.Kms.Handlers.{with_key}
use openstack.Kms.Invariant.{resolve_key-place}

key_at-place :
    (store : KmsStore) (id place : String) (k : KmsKey)
    → key_at store id ≡ some (place, k)
    → id ≡ place
key_at-place store id place k e = elim (Option-cases (get id store.keys)) [
  | inl missing ↦ absurd (cc (rw (missing, key_at) at e))
  | inr (w, found) ↦
      let q : some (id, w) ≡ some (place, k) = rw (found, key_at) at e in
      let pair : (id, w) ≡ (place, k) = cc q in ap (λ (a : String × KmsKey). a.0) pair
]

-- A key that is not there is not put there by a change of another.
get-insert_missing :
    (id place : String) (k w : KmsKey) (keys : Dict KmsKey)
    → get id keys ≡ none
    → get place keys ≡ some k
    → get id (insert place w keys) ≡ none
get-insert_missing id place k w keys missing found = elim (Bool-cases (place == id)) [
  | inl same ↦
      absurd (cc (sym missing ∙ ap (λ j. get j keys) (sym ((eq_iff place id).0 same)) ∙ found))
  | inr other ↦ rw (get-insert place id w keys, other) missing
]

get-insert_self :
    (id : String) (w : KmsKey) (keys : Dict KmsKey) → get id (insert id w keys) ≡ some w
get-insert_self id w keys = rw (get-insert id id w keys, eq_refl id) refl

-- The id leads to the changed key, by whichever of the ways it led to the key.
insert-resolve_key :
    (store : KmsStore) (id place : String) (k w : KmsKey)
    → resolve_key_mut store id ≡ some (place, k)
    → get place store.keys ≡ some k
    → resolve_key (record store { keys = insert place w store.keys }) id ≡ some w
unfolding resolve_key resolve_key_mut
insert-resolve_key store id place k w e stands = elim (Option-cases (get id store.keys)) [
  | inr (v, direct) ↦
      let same : id ≡ place = key_at-place store id place k (rw (direct, resolve_key_mut) at e) in
      let found : get id (insert place w store.keys) ≡ some w =
        subst (λ p. get id (insert p w store.keys) ≡ some w) same
          (get-insert_self id w store.keys) in
      rw (found, resolve_key) refl
  | inl missing ↦
      let none_ = get-insert_missing id place k w store.keys missing stands in
      let self = get-insert_self place w store.keys in
      elim (Bool-cases (has_prefix "arn:" id)) [
        | inl arn ↦
            let same =
              key_at-place store (after_last b'/' id) place k
                (rw (missing, arn, resolve_key_mut) at e) in
            rw (none_, arn, resolve_key) (ap (λ p. get p (insert place w store.keys)) same ∙ self)
        | inr other ↦ elim (Bool-cases (has_prefix "alias/" id)) [
          | inl alias ↦ elim (Option-cases (get id store.alias_to_key)) [
            | inl no_alias ↦
                absurd (cc (rw (missing, other, alias, no_alias, resolve_key_mut) at e))
            | inr (key_id, found) ↦
                let same =
                  key_at-place store key_id place k
                    (rw (missing, other, alias, found, resolve_key_mut) at e) in
                rw (none_, other, alias, found, resolve_key)
                  (ap (λ p. get p (insert place w store.keys)) same ∙ self)
          ]
          | inr neither ↦ absurd (cc (rw (missing, other, neither, resolve_key_mut) at e))
        ]
      ]
]

-- What a change through an identifier leaves is what the identifier is then resolved to.
pub with_key-resolve_key :
    (id : String) (f : KmsKey → KmsKey × DispatchResponse) (store : KmsStore) (k : KmsKey)
    → resolve_key store id ≡ some k
    → resolve_key (with_key id f store).0 id ≡ some (f k).0
unfolding with_key
with_key-resolve_key id f store k e =
    let (place, found, stands) = resolve_key-place store id k e in
    rw (found, with_key) (insert-resolve_key store id place k (f k).0 found stands)
