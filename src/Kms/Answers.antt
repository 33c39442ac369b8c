-- ===== src/Kms/Answers.antt =====
-- What requests to `KmsProvider::dispatch` (crates/services/kms/src/provider.rs) are answered with, and
-- how the answers of different operations fit together.
pub mod Ciphers
use openstack.Prelude.{String, ◌≡◌, refl, sym, ap, ◌∙◌, Option, none, some, List, unwrap_or}
use openstack.Framework.Traits.{RequestContext, DispatchResponse}
use openstack.Framework.Service.{
  Operation, perform, str_param, json_error, changes, required, route,
}
use openstack.Framework.Service.Laws.{own, perform-reads, perform-changes, required-some}
use openstack.State.Bundle.{AccountRegionBundle, get}
use openstack.Kms.Store.{
  KmsKey, KmsStore, KeyState, empty, resolve_key, enabled, disabled, is_enabled,
}
use openstack.Kms.Handlers.{Runtime, Fresh, of_key, with_key, reads_key, invalid_key, done}
use openstack.Kms.Handlers.Keys.{enable_key, disable_key, set_state}
use openstack.Kms.Handlers.Ciphers.{encrypt, encrypted, if_enabled}
use openstack.Kms.Provider.{arms, arm, dispatch}
use openstack.Kms.Keys.{with_key-resolve_key}

-- A key that the stores of an account and region resolve an id to.
pub record Has (stores : AccountRegionBundle KmsStore) (account region id : String) (k : KmsKey)
    : Type 0 where
  pub store : KmsStore
  pub own_store : get stores account region ≡ some store
  pub resolved : resolve_key store id ≡ some k

of_key-some :
    (id : String) (k : KmsKey) (absent : DispatchResponse) (f : KmsKey → DispatchResponse)
    (store : KmsStore)
    → resolve_key store id ≡ some k
    → of_key id absent f store ≡ f k
unfolding of_key
of_key-some id k absent f store q = rw (q, of_key) refl

-- An arm that reads a key answers from the key that is there.
pub reads_key-answer :
    (r : Runtime) (fresh : Fresh) (ctx : RequestContext) (stores : AccountRegionBundle KmsStore)
    (id : String) (k : KmsKey) (absent : DispatchResponse) (f : KmsKey → DispatchResponse)
    → Has stores ctx.account_id ctx.region id k
    → arm r fresh ctx ≡ reads_key id absent f
    → (dispatch r fresh ctx stores).1 ≡ f k
unfolding dispatch
reads_key-answer r fresh ctx stores id k absent f h e =
    ap (λ operation. (perform empty ctx stores operation).1) e
    ∙ ap (λ a. a.1) (perform-reads empty ctx stores _ _ h.store h.own_store)
    ∙ of_key-some id k absent f h.store h.resolved

-- An arm that changes a key leaves the changed key under the id.
changes_key-Has :
    (r : Runtime) (fresh : Fresh) (ctx : RequestContext) (stores : AccountRegionBundle KmsStore)
    (id : String) (k : KmsKey) (f : KmsKey → KmsKey × DispatchResponse)
    → Has stores ctx.account_id ctx.region id k
    → arm r fresh ctx ≡ changes (with_key id f)
    → Has (dispatch r fresh ctx stores).0 ctx.account_id ctx.region id (f k).0
unfolding dispatch
changes_key-Has r fresh ctx stores id k f h e =
    let after = (perform-changes empty ctx stores (with_key id f)).0 in
    let same =
      ap (λ operation. get (perform empty ctx stores operation).0 ctx.account_id ctx.region) e in
    let before = ap (λ o. unwrap_or o empty) h.own_store in
    record {
      store = (with_key id f h.store).0;
      own_store = same ∙ after ∙ ap (λ s. some (with_key id f s).0) before;
      resolved = with_key-resolve_key id f h.store k h.resolved;
    }

-- A request for an operation on a key.
pub record Asks (ctx : RequestContext) (operation id : String) : Type 0 where
  pub asked : ctx.operation ≡ operation
  pub named : str_param ctx "KeyId" ≡ some id

arm-disable_key_taken :
    (r : Runtime) (fresh : Fresh) (ctx : RequestContext)
    → ctx.operation ≡ "DisableKey"
    → arm r fresh ctx ≡ disable_key ctx
unfolding arm arms route
arm-disable_key_taken r fresh ctx op = rw (op, arm, route) refl

arm-disable_key :
    (r : Runtime) (fresh : Fresh) (ctx : RequestContext) (id : String)
    → Asks ctx "DisableKey" id
    → arm r fresh ctx ≡ changes (with_key id (set_state disabled done))
unfolding disable_key
arm-disable_key r fresh ctx id h =
    arm-disable_key_taken r fresh ctx h.asked ∙ (required-some ctx "KeyId" id _ h.named)

arm-enable_key_taken :
    (r : Runtime) (fresh : Fresh) (ctx : RequestContext)
    → ctx.operation ≡ "EnableKey"
    → arm r fresh ctx ≡ enable_key ctx
unfolding arm arms route
arm-enable_key_taken r fresh ctx op = rw (op, arm, route) refl

arm-enable_key :
    (r : Runtime) (fresh : Fresh) (ctx : RequestContext) (id : String)
    → Asks ctx "EnableKey" id
    → arm r fresh ctx ≡ changes (with_key id (set_state enabled done))
unfolding enable_key
arm-enable_key r fresh ctx id h =
    arm-enable_key_taken r fresh ctx h.asked ∙ (required-some ctx "KeyId" id _ h.named)

arm-encrypt_taken :
    (r : Runtime) (fresh : Fresh) (ctx : RequestContext)
    → ctx.operation ≡ "Encrypt"
    → arm r fresh ctx ≡ encrypt r ctx
unfolding arm arms route
arm-encrypt_taken r fresh ctx op = rw (op, arm, route) refl

pub arm-encrypt :
    (r : Runtime) (fresh : Fresh) (ctx : RequestContext) (id plaintext : String)
    → Asks ctx "Encrypt" id
    → str_param ctx "Plaintext" ≡ some plaintext
    → arm r fresh ctx
      ≡ reads_key id (invalid_key id) (if_enabled "Key is disabled" (encrypted r plaintext))
unfolding encrypt
arm-encrypt r fresh ctx id plaintext h p =
    arm-encrypt_taken r fresh ctx h.asked
    ∙ (required-some ctx "KeyId" id _ h.named ∙ required-some ctx "Plaintext" plaintext _ p)

-- The contexts of requests of one tenant.
abbrev SameTenant : RequestContext → RequestContext → Type 0
SameTenant c d = (c.account_id ≡ d.account_id) × (c.region ≡ d.region)

move :
    (stores : AccountRegionBundle KmsStore) (c d : RequestContext) (id : String) (k : KmsKey)
    → SameTenant c d
    → Has stores c.account_id c.region id k
    → Has stores d.account_id d.region id k
move stores c d id k (account, region) h = record {
  store = h.store;
  own_store = rw (← account, ← region) h.own_store;
  resolved = h.resolved;
}

-- A key that a tenant has, by its id, an ARN or an alias, and disables by that identifier, refuses to
-- encrypt under it; and when the tenant enables it again, it encrypts as before.
pub disable_key-enable_key :
    (r : Runtime) (fresh : Fresh) (off on ask : RequestContext)
    (stores : AccountRegionBundle KmsStore) (id plaintext : String) (k : KmsKey)
    → SameTenant off ask
    → SameTenant on ask
    → Has stores ask.account_id ask.region id k
    → Asks off "DisableKey" id
    → Asks on "EnableKey" id
    → Asks ask "Encrypt" id
    → str_param ask "Plaintext" ≡ some plaintext
    → ((dispatch r fresh ask (dispatch r fresh off stores).0).1
        ≡ json_error "DisabledException" "Key is disabled" 400)
      × ((dispatch r fresh ask (dispatch r fresh on (dispatch r fresh off stores).0).0).1
          ≡ encrypted r plaintext (record k { key_state = enabled }))
unfolding if_enabled
disable_key-enable_key r fresh off on ask stores id plaintext k s t h disable enable encrypt_ p =
    let was : Has stores off.account_id off.region id k =
      move stores ask off id k (sym s.0, sym s.1) h in
    let stopped =
      move _ off ask id _ s
        (changes_key-Has r fresh off stores id k _ was (arm-disable_key r fresh off id disable)) in
    let before = move _ ask on id _ (sym t.0, sym t.1) stopped in
    let restarted =
      move _ on ask id _ t
        (changes_key-Has r fresh on _ id _ _ before (arm-enable_key r fresh on id enable)) in
    let by = arm-encrypt r fresh ask id plaintext encrypt_ p in
    (
      reads_key-answer r fresh ask _ id _ _ _ stopped by,
      reads_key-answer r fresh ask _ id _ _ _ restarted by,
    )
