-- ===== src/Framework/Service/Laws.antt =====
-- What an operation does to the stores, whatever the service.
use openstack.Prelude.{
  All, All, List, [], ◌∷◌, Bool-cases, ◌==◌, get as map_get, get-All, insert-All, String, ◌≡◌, ◌≢◌,
  refl, ◌∙◌, some, inl, inr, Option-cases, unwrap_or, ap,
}
use openstack.Prelude.Text.{IsFree}
use openstack.Framework.Traits.{RequestContext, DispatchResponse}
use openstack.State.Scoping.{new as key_new, new-injective}
use openstack.State.Bundle.{
  AccountRegionBundle, get, get_mut, get_or_create, write, get-write_self, get-write_ne,
  get_or_create-ne, get_or_create-get,
}
use openstack.Framework.Service.{
  required, route, str_param, require, List, Operation, replies, reads, changes, updates, perform,
}

module _ {ℓ} {S : Type ℓ} (default : S) (ctx : RequestContext)
    (stores : AccountRegionBundle S) where
  -- The store of the request's tenant; one that was never made is the default.
  abbrev pub own : AccountRegionBundle S → S
  own ss = unwrap_or (get ss ctx.account_id ctx.region) default

  -- A change is made to the tenant's store, and it is what the tenant has afterwards.
  pub perform-changes :
      (f : S → S × DispatchResponse)
      → (get (perform default ctx stores (changes f)).0 ctx.account_id ctx.region
          ≡ some (f (own stores)).0)
        × ((perform default ctx stores (changes f)).1 ≡ (f (own stores)).1)
  unfolding perform
  perform-changes f =
      let same = (get_or_create-get default stores ctx.account_id ctx.region).0 in
      (
        get-write_self _ ctx.account_id ctx.region _ ∙ ap (λ s. some (f s).0) same,
        ap (λ s. (f s).1) same,
      )

  pub perform-reads :
      (absent : DispatchResponse) (f : S → DispatchResponse) (s : S)
      → get stores ctx.account_id ctx.region ≡ some s
      → perform default ctx stores (reads absent f) ≡ (stores, f s)
  unfolding perform
  perform-reads absent f s found = rw (found, perform)

  module _ (b q : String) (h : key_new ctx.account_id ctx.region ≢ key_new b q) where
    perform-ne :
        (operation : Operation S)
        → get (perform default ctx stores operation).0 b q ≡ get stores b q
    unfolding perform
    perform-ne (replies r) = refl
    perform-ne (reads absent f) = elim (Option-cases (get stores ctx.account_id ctx.region)) [
      | inl missing ↦ rw (missing, perform)
      | inr (s, found) ↦ rw (found, perform)
    ]
    perform-ne (changes f) =
        get-write_ne _ ctx.account_id ctx.region b q _ h
        ∙ get_or_create-ne default stores ctx.account_id ctx.region b q h
    perform-ne (updates absent f) = elim (Option-cases (get_mut stores ctx.account_id ctx.region)) [
      | inl missing ↦ rw (missing, perform)
      | inr (s, found) ↦ rw (found, perform) (get-write_ne stores ctx.account_id ctx.region b q _ h)
    ]

  -- An operation leaves the stores of all other accounts and regions.
  pub perform-other :
      (operation : Operation S) (account region : String)
      → IsFree 0 ctx.account_id
      → IsFree 0 account
      → ((ctx.account_id ≡ account) → ctx.region ≢ region)
      → get (perform default ctx stores operation).0 account region ≡ get stores account region
  perform-other operation account region own_free free differ =
      perform-ne account region
        (λ e.
          let (same_account, same_region) =
            new-injective ctx.account_id account ctx.region region own_free free e in
          differ same_account same_region)
        operation

-- A member that is there is taken.
pub required-some {ℓ} :
    {S : Type ℓ} (ctx : RequestContext) (key v : String) (operation : String → Operation S)
    → str_param ctx key ≡ some v
    → required ctx key operation ≡ operation v
required-some ctx key v operation found = rw (found, required, require) refl

-- A predicate on stores that an operation keeps, whatever the store.
module _ {ℓ} {S : Type ℓ} (P : S → Type ℓ) where
  abbrev pub Keeps : Operation S → Type ℓ
  Keeps (replies r) = Unit
  Keeps (reads absent f) = Unit
  Keeps (changes f) = (s : S) → P s → P (f s).0
  Keeps (updates absent f) = (s : S) → P s → P (f s).0

  pub require-Keeps :
      (ctx : RequestContext) (key error_code : String) (operation : String → Operation S)
      → ((v : String) → Keeps (operation v))
      → Keeps (require ctx key error_code operation)
  require-Keeps ctx key error_code operation h = elim (Option-cases (str_param ctx key)) [
    | inl missing ↦ rw (missing, Keeps) tt
    | inr (v, found) ↦ rw (found, Keeps) (h v)
  ]

  pub route-Keeps :
      (op : String) (arms : List (String × Operation S)) (others : Operation S)
      → All (λ arm. Keeps arm.1) arms
      → Keeps others
      → Keeps (route op arms others)
  unfolding route
  route-Keeps op [] others h k = k
  route-Keeps op ((name, operation) ∷ arms) others (here, rest) k = elim (Bool-cases (op == name)) [
    | inl same ↦ rw (same, route, Keeps) here
    | inr other ↦ rw (other, route, Keeps) (route-Keeps op arms others rest k)
  ]

  pub perform-Keeps :
      (default : S) (ctx : RequestContext) (stores : AccountRegionBundle S)
      (operation : Operation S)
      → P default
      → Keeps operation
      → All (λ e. P e.1) stores
      → All (λ e. P e.1) (perform default ctx stores operation).0
  unfolding perform write get_or_create get get_mut
  perform-Keeps default ctx stores (replies r) base h all = all
  perform-Keeps default ctx stores (reads absent f) base h all =
      elim (Option-cases (get stores ctx.account_id ctx.region)) [
        | inl missing ↦ rw (missing, perform) all
        | inr (s, found) ↦ rw (found, perform) all
      ]
  perform-Keeps default ctx stores (changes f) base h all =
      elim (Option-cases (map_get (key_new ctx.account_id ctx.region) stores)) [
        | inl missing ↦
            rw (missing, get_or_create)
              (insert-All P _ _ _ (h default base) (insert-All P _ _ stores base all))
        | inr (s, found) ↦
            rw (found, get_or_create)
              (insert-All P _ _ stores (h s (get-All P _ stores s found all)) all)
      ]
  perform-Keeps default ctx stores (updates absent f) base h all =
      elim (Option-cases (get_mut stores ctx.account_id ctx.region)) [
        | inl missing ↦ rw (missing, perform) all
        | inr (s, found) ↦
            rw (found, perform) (insert-All P _ _ stores (h s (get-All P _ stores s found all)) all)
      ]
