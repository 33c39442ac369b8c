-- ===== src/Ssm/Provider/Laws/Tenants.antt =====
-- The parameter store's requests and the stores of other accounts and regions.
use openstack.Prelude.{
  ℕ, String, ◌≡◌, ◌≢◌, ◌∙◌, inl, inr, Option-cases, Bool-cases, not, ◌&&◌, arith, get as map_get,
  contains_key, get-All, All,
}
use openstack.Prelude.Text.{IsFree}
use openstack.Framework.Traits.{RequestContext}
use openstack.State.Scoping.{new as key_new, new-injective}
use openstack.State.Bundle.{get, get_or_create, write, get-write_ne, get_or_create-ne}
use openstack.Ssm.Store.{SsmStore, empty}
use openstack.Ssm.Requests.{Stores, Answer, str_param, flag_param}
use openstack.Ssm.Provider.{
  put, put_parameter, get_parameter, get_parameters, get_parameters_by_path, delete_parameter,
  delete_parameters, describe_parameters, operations, dispatch,
}

module _ (ctx : RequestContext) (b q : String)
    (h : key_new ctx.account_id ctx.region ≢ key_new b q) where
  -- The operation leaves the other tenant's store.
  abbrev Leaves : (RequestContext → Stores → Answer) → Type 0
  Leaves f = (stores : Stores) → get (f ctx stores).0 b q ≡ get stores b q

  write-Leaves :
      (stores : Stores) (s : SsmStore)
      → get
          (write
            (get_or_create empty stores ctx.account_id ctx.region).0
            ctx.account_id
            ctx.region
            s)
          b
          q
        ≡ get stores b q
  write-Leaves stores s =
      get-write_ne _ ctx.account_id ctx.region b q s h
      ∙ get_or_create-ne empty stores ctx.account_id ctx.region b q h

  put-Leaves :
      (now : ℕ) (name value : String) (stores : Stores) (store : SsmStore)
      → get (put now ctx name value stores store).0 b q ≡ get stores b q
  unfolding put
  put-Leaves now name value stores store =
      elim (Bool-cases (contains_key name store.parameters && not (flag_param ctx "Overwrite"))) [
        | inl refused ↦ rw (refused, put)
        | inr taken ↦ rw (taken, put) (get-write_ne stores ctx.account_id ctx.region b q _ h)
      ]

  put_parameter-Leaves : (now : ℕ) → Leaves (put_parameter now)
  unfolding put_parameter put
  put_parameter-Leaves now stores = elim (Option-cases (str_param ctx "Name")) [
    | inl missing ↦ rw (missing, put_parameter)
    | inr (name, n) ↦ elim (Option-cases (str_param ctx "Value")) [
      | inl missing ↦ rw (n, put_parameter, missing)
      | inr (value, v) ↦
          rw (n, put_parameter, v)
            (put-Leaves now name value _ _
              ∙ get_or_create-ne empty stores ctx.account_id ctx.region b q h)
    ]
  ]

  get_parameter-Leaves : Leaves get_parameter
  unfolding get_parameter
  get_parameter-Leaves stores = ground arith

  get_parameters-Leaves : Leaves get_parameters
  unfolding get_parameters
  get_parameters-Leaves stores = ground arith

  get_parameters_by_path-Leaves : Leaves get_parameters_by_path
  unfolding get_parameters_by_path
  get_parameters_by_path-Leaves stores = ground arith

  describe_parameters-Leaves : Leaves describe_parameters
  unfolding describe_parameters
  describe_parameters-Leaves stores = ground arith

  delete_parameter-Leaves : Leaves delete_parameter
  unfolding delete_parameter
  delete_parameter-Leaves stores = elim (Option-cases (str_param ctx "Name")) [
    | inl missing ↦ rw (missing, delete_parameter)
    | inr (name, n) ↦ rw (n, delete_parameter) (write-Leaves stores _)
  ]

  delete_parameters-Leaves : Leaves delete_parameters
  unfolding delete_parameters
  delete_parameters-Leaves stores = write-Leaves stores _

  operations-Leave : (now : ℕ) → All (λ e. Leaves e.1) (operations now)
  operations-Leave now = (
    put_parameter-Leaves now,
    (
      get_parameter-Leaves,
      (
        get_parameters-Leaves,
        (
          get_parameters_by_path-Leaves,
          (delete_parameter-Leaves, (delete_parameters-Leaves, (describe_parameters-Leaves, tt))),
        ),
      ),
    ),
  )

  dispatch-Leaves : (now : ℕ) → Leaves (dispatch now)
  unfolding dispatch
  dispatch-Leaves now stores = elim (Option-cases (map_get ctx.operation (operations now))) [
    | inl missing ↦ rw (missing, dispatch)
    | inr (f, found) ↦
        rw (found, dispatch)
          (get-All Leaves ctx.operation (operations now) f found (operations-Leave now) stores)
  ]

-- A request to the parameter store changes only the parameters of its own account and region: the
-- store that another account or another region finds is as before, where no account id contains the
-- separator U+0000.
pub dispatch-other_tenant :
    (now : ℕ) (ctx : RequestContext) (stores : Stores) (account region : String)
    → IsFree 0 ctx.account_id
    → IsFree 0 account
    → ((ctx.account_id ≡ account) → ctx.region ≢ region)
    → get (dispatch now ctx stores).0 account region ≡ get stores account region
dispatch-other_tenant now ctx stores account region own free differ =
    dispatch-Leaves ctx account region
      (λ e.
        let (same_account, same_region) =
          new-injective ctx.account_id account ctx.region region own free e in
        differ same_account same_region)
      now stores
