-- ===== src/State/Bundle.antt =====
-- crates/state/src/bundle.rs: the stores of all accounts and regions, under the combined key. A
-- guard that the source hands out is a value here, and what it writes comes back by `write`.
use Prim.Native.String.{len}
use openstack.Prelude.{
  inr, inl, Option-cases, unwrap_or, ◌+◌, String, ◌++◌, ◌≡◌, ◌≢◌, eq_iff, refl, ap, ◌∙◌, Bool, true,
  false, Option, none, some, [], arith, leb, if◌then◌else◌, Dict, get as map_get, insert,
  get-insert, ◌==◌, eq_refl,
}
use openstack.State.Scoping.{new as key_new, separator}

-- `AccountRegionBundle<S>`.
abbrev pub AccountRegionBundle {ℓ} : Type ℓ → Type ℓ
AccountRegionBundle S = Dict S

-- The lookup key: built in the 64-byte buffer if it fits, else on the heap. `len` counts characters
-- where the source counts bytes; both ways to build the key give the same one.
unfoldable pub lookup_key : String → String → String
unfolding key_new
lookup_key account_id region =
    if leb (len account_id + 1 + len region) 63
    then account_id ++ (separator ++ region)
    else key_new account_id region

-- The buffer holds the very key that the write path makes.
pub lookup_key-eq-new : (a r : String) → lookup_key a r ≡ key_new a r
unfolding lookup_key
lookup_key-eq-new a r = ground arith

module _ {ℓ} {S : Type ℓ} where
  unfoldable pub get : AccountRegionBundle S → String → String → Option S
  get stores account_id region = map_get (lookup_key account_id region) stores

  unfoldable pub get_mut : AccountRegionBundle S → String → String → Option S
  get_mut stores account_id region = map_get (lookup_key account_id region) stores

  -- What a handler leaves in the store that its guard refers to.
  unfoldable pub write : AccountRegionBundle S → String → String → S → AccountRegionBundle S
  write stores account_id region s = insert (key_new account_id region) s stores

  -- The `default` store is inserted on the first use of an account and region.
  unfoldable pub get_or_create :
      S → AccountRegionBundle S → String → String → AccountRegionBundle S × S
  unfolding write
  get_or_create default stores account_id region =
      elim (map_get (key_new account_id region) stores) [
        | none ↦ (write stores account_id region default, default)
        | some s ↦ (stores, s)
      ]

  unfoldable pub is_empty : AccountRegionBundle S → Bool
  is_empty [] = true
  is_empty _ = false

  unfoldable pub clear : AccountRegionBundle S → AccountRegionBundle S
  clear stores = []

  pub get-write :
      (stores : AccountRegionBundle S) (a r b q : String) (s : S)
      → get (write stores a r s) b q
        ≡ (if key_new a r == key_new b q then some s else get stores b q)
  unfolding get write
  get-write stores a r b q s =
      rw (lookup_key-eq-new b q) (get-insert (key_new a r) (key_new b q) s stores)

  pub get-write_self :
      (stores : AccountRegionBundle S) (a r : String) (s : S)
      → get (write stores a r s) a r ≡ some s
  get-write_self stores a r s = rw (get-write stores a r a r s, eq_refl (key_new a r))

  get-eq :
      (stores : AccountRegionBundle S) (a r : String)
      → get stores a r ≡ map_get (key_new a r) stores
  unfolding get
  get-eq stores a r = ap (λ k. map_get k stores) (lookup_key-eq-new a r)

  -- A store that `get_or_create` gives is the one that reads find, before if there was one, and after.
  pub get_or_create-get :
      (default : S) (stores : AccountRegionBundle S) (a r : String)
      → ((get_or_create default stores a r).1 ≡ unwrap_or (get stores a r) default)
        × (get (get_or_create default stores a r).0 a r ≡ some (get_or_create default stores a r).1)
  unfolding get_or_create
  get_or_create-get default stores a r = elim (Option-cases (map_get (key_new a r) stores)) [
    | inl missing ↦
        rw (get-eq stores a r, missing, get_or_create) (refl, get-write_self stores a r default)
    | inr (s, found) ↦
        rw (found, get_or_create) (rw (get-eq stores a r, found) refl, get-eq stores a r ∙ found)
  ]

  -- A write under one tenant's key is not seen under another's.
  pub get-write_ne :
      (stores : AccountRegionBundle S) (a r b q : String) (s : S)
      → key_new a r ≢ key_new b q
      → get (write stores a r s) b q ≡ get stores b q
  get-write_ne stores a r b q s h =
      get-write stores a r b q s ∙ ground (arith, eq_iff (key_new a r) (key_new b q))

  -- Nor is the creation of a missing store.
  pub get_or_create-ne :
      (default : S) (stores : AccountRegionBundle S) (a r b q : String)
      → key_new a r ≢ key_new b q
      → get (get_or_create default stores a r).0 b q ≡ get stores b q
  unfolding get_or_create
  get_or_create-ne default stores a r b q h = elim (Option-cases (map_get (key_new a r) stores)) [
    | inl missing ↦ rw (missing, get_or_create) (get-write_ne stores a r b q default h)
    | inr (s, found) ↦ rw (found, get_or_create)
  ]
