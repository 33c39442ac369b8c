-- ===== src/Sqs/Provider/Laws.antt =====
-- What holds of every request, whatever its action.
use openstack.Prelude.{ℕ, String, ◌≡◌, ◌≢◌, refl, ◌∙◌, Option, inl, inr, Option-cases}
use openstack.Prelude.Text.{IsFree}
use openstack.Framework.Json.{Json}
use openstack.Framework.Traits.{RequestContext}
use openstack.State.Scoping.{new as key_new, new-injective}
use openstack.State.Bundle.{get, get_mut, get-write_ne, get_or_create-ne}
use openstack.Sqs.Params.{Params}
use openstack.Sqs.Store.{empty}
use openstack.Sqs.Provider.{
  SqsProvider, Access, reads, writes, creates, unimplemented, action_of, serve, route, dispatch,
}

module _ (p : SqsProvider) (ctx : RequestContext) (b q : String)
    (h : key_new ctx.account_id ctx.region ≢ key_new b q) where
  serve-other : (arm : Access) → get (serve p ctx arm).provider.stores b q ≡ get p.stores b q
  unfolding serve
  serve-other (reads absent handler) =
      elim (Option-cases (get p.stores ctx.account_id ctx.region)) [
        | inl missing ↦ rw (missing, serve)
        | inr (s, found) ↦ rw (found, serve)
      ]
  serve-other (writes absent handler) =
      elim (Option-cases (get_mut p.stores ctx.account_id ctx.region)) [
        | inl missing ↦ rw (missing, serve)
        | inr (s, found) ↦ rw (found, serve) (get-write_ne p.stores _ _ b q _ h)
      ]
  serve-other (creates handler) =
      (get-write_ne _ _ _ b q _ h ∙ get_or_create-ne empty p.stores ctx.account_id ctx.region b q h)
  serve-other (unimplemented action) = refl

-- A request changes only the store of its own account and region: every store that another account or
-- another region finds is as before, where no account id contains the separator U+0000.
pub dispatch-other :
    (md5_hex : String → String) (from_str : String → Option Json) (now : ℕ) (ctx : RequestContext)
    (params : Params) (p : SqsProvider) (account region : String)
    → IsFree 0 ctx.account_id
    → IsFree 0 account
    → ((ctx.account_id ≡ account) → ctx.region ≢ region)
    → get (dispatch md5_hex from_str now ctx params p).provider.stores account region
      ≡ get p.stores account region
unfolding dispatch
dispatch-other md5_hex from_str now ctx params p account region own free differ =
    elim (Option-cases (action_of ctx params)) [
      | inl missing ↦
          rw (missing, dispatch)
            (serve-other p ctx account region apart (unimplemented "(missing Action)"))
      | inr (action, found) ↦
          rw (found, dispatch)
            (serve-other p ctx account region apart (route md5_hex from_str now ctx params action))
    ]
  where
    apart : key_new ctx.account_id ctx.region ≢ key_new account region
    apart e =
        let (same_account, same_region) =
          new-injective ctx.account_id account ctx.region region own free e in
        differ same_account same_region
