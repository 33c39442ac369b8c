-- ===== src/SecretsManager/Provider/Versions.antt =====
-- Which version of a secret is current.
use openstack.Prelude.{
  ℕ, ◌/◌, String, ◌≡◌, refl, ap, ◌∙◌, true, false, Option, none, some, List, [], ◌∷◌, map, any,
  find_if, count_if, get as map_get, insert, get-insert, eq_refl, ◌==◌, Bool-cases, inl, inr, arith,
}
use openstack.Framework.Json.{num, str, object, array}
use openstack.Framework.Traits.{RequestContext, json}
use openstack.State.Bundle.{get, get_or_create, get-write_self, get_or_create-get}
use openstack.SecretsManager.Store.{
  Secret, SecretVersion, SecretsManagerStore, is_current, current_version, empty,
}
use openstack.SecretsManager.Provider.{
  other_stages, push_stage, push_version, demote, strip, new_version, put_value, update, Stores,
  str_param, resolve_secret_name, resolve, version_response, secret_response, get_secret_value,
  put_resolved, put_secret_value,
}

-- No stage that is left is `AWSCURRENT`.
other_stages-none : (ss : List String) → any (λ s. s == "AWSCURRENT") (other_stages ss) ≡ false
other_stages-none [] = refl
other_stages-none (s ∷ ss) = ground (arith, other_stages-none ss)

push_stage-none :
    (ss : List String)
    → any (λ s. s == "AWSCURRENT") ss ≡ false
    → any (λ s. s == "AWSCURRENT") (push_stage ss "AWSPREVIOUS") ≡ false
unfolding push_stage
push_stage-none [] h = refl
push_stage-none (s ∷ ss) h = ground (arith, push_stage-none ss)

demote-none : (v : SecretVersion) → is_current (demote v) ≡ false
unfolding demote
demote-none v = elim (Bool-cases (is_current v)) [
  | inl current ↦
      rw current
        (push_stage-none (other_stages v.version_stages) (other_stages-none v.version_stages))
  | inr other ↦ rw other other
]

strip-none : (v : SecretVersion) → is_current (strip v) ≡ false
unfolding strip
strip-none v = other_stages-none v.version_stages

-- Where a change leaves no version current, the version pushed behind is the first current one.
find_if-push_version :
    (f : SecretVersion → SecretVersion) (vs : List SecretVersion) (v : SecretVersion)
    → ((w : SecretVersion) → is_current (f w) ≡ false)
    → is_current v ≡ true
    → find_if is_current (push_version (map f vs) v) ≡ some v
unfolding push_version
find_if-push_version f [] v none' h = rw h
find_if-push_version f (w ∷ ws) v none' h = rw (none' w) (find_if-push_version f ws v none' h)

count_if-push_version :
    (f : SecretVersion → SecretVersion) (vs : List SecretVersion) (v : SecretVersion)
    → ((w : SecretVersion) → is_current (f w) ≡ false)
    → is_current v ≡ true
    → count_if is_current (push_version (map f vs) v) ≡ 1
unfolding push_version
count_if-push_version f [] v none' h = rw h
count_if-push_version f (w ∷ ws) v none' h = rw (none' w) (count_if-push_version f ws v none' h)

-- After PutSecretValue, and after UpdateSecret with a value, the new version is the current one of
-- the secret, and no other version is current, whatever stages the versions had.
pub put_value-current_version :
    (now : ℕ) (uuid : String) (value : Option String) (description : Option String) (text : String)
    (s : Secret)
    → (current_version (put_value now uuid value s) ≡ some (new_version now uuid value))
      × (count_if is_current (put_value now uuid value s).versions ≡ 1)
      × (current_version (update now uuid description (some text) s)
          ≡ some (new_version now uuid (some text)))
      × (count_if is_current (update now uuid description (some text) s).versions ≡ 1)
unfolding put_value update current_version
put_value-current_version now uuid value description text s = (
  find_if-push_version demote s.versions _ demote-none refl,
  count_if-push_version demote s.versions _ demote-none refl,
  find_if-push_version strip s.versions _ strip-none refl,
  count_if-push_version strip s.versions _ strip-none refl,
)

-- A key of the map stands for its secret.
resolve-key :
    (store : SecretsManagerStore) (name : String) (s : Secret)
    → map_get name store.secrets ≡ some s
    → resolve store name ≡ some (name, s)
unfolding resolve resolve_secret_name
resolve-key store name s found = rw (found, resolve, found)

resolved-get :
    (now : ℕ) (uuid : String) (ctx : RequestContext) (name : String) (s : Secret) (created : Stores)
    (opened store : SecretsManagerStore) (found : Option (String × Secret))
    → opened ≡ store
    → found ≡ some (name, s)
    → get (put_resolved now uuid ctx name created opened found).0 ctx.account_id ctx.region
      ≡ some (record store {
        secrets = insert name (put_value now uuid (str_param ctx "SecretString") s) store.secrets;
        list_cache = none;
      })
unfolding put_resolved
resolved-get now uuid ctx name s created opened store found e f =
    rw (e, f) (get-write_self created ctx.account_id ctx.region _)

put_secret_value-get :
    (now : ℕ) (uuid : String) (ctx : RequestContext) (stores : Stores) (store : SecretsManagerStore)
    (name : String) (s : Secret)
    → str_param ctx "SecretId" ≡ some name
    → get stores ctx.account_id ctx.region ≡ some store
    → map_get name store.secrets ≡ some s
    → get (put_secret_value now uuid ctx stores).0 ctx.account_id ctx.region
      ≡ some (record store {
        secrets = insert name (put_value now uuid (str_param ctx "SecretString") s) store.secrets;
        list_cache = none;
      })
unfolding put_secret_value put_resolved
put_secret_value-get now uuid ctx stores store name s n here found =
    let opened : (get_or_create empty stores ctx.account_id ctx.region).1 ≡ store =
      (get_or_create-get empty stores ctx.account_id ctx.region).0 ∙ (rw here refl) in
    rw (n, put_secret_value)
      (resolved-get now uuid ctx name s (get_or_create empty stores ctx.account_id ctx.region).0 _
        store _ opened ((ap (λ o. resolve o name) opened) ∙ resolve-key store name s found))

get_secret_value-found :
    (ctx : RequestContext) (stores : Stores) (store : SecretsManagerStore) (name : String)
    (s : Secret)
    → str_param ctx "SecretId" ≡ some name
    → get stores ctx.account_id ctx.region ≡ some store
    → map_get name store.secrets ≡ some s
    → (get_secret_value ctx stores).1 ≡ secret_response s
unfolding get_secret_value
get_secret_value-found ctx stores store name s n here found =
    rw (n, get_secret_value, here, resolve-key store name s found)

secret_response-current :
    (s : Secret) (v : SecretVersion)
    → s.deleted ≡ false
    → current_version s ≡ some v
    → secret_response s ≡ version_response s v
unfolding secret_response
secret_response-current s v kept current = rw (kept, secret_response, current)

-- After PutSecretValue with a text on the name of a secret that is there and not deleted,
-- GetSecretValue of the same tenant and name answers with this text, with the id and the time of the
-- put, with `AWSCURRENT` as the only stage, and with the ARN and the name of the secret.
pub put_secret_value-get_secret_value :
    (now : ℕ) (uuid : String) (ctx read : RequestContext) (stores : Stores)
    (store : SecretsManagerStore) (name value : String) (s : Secret)
    → str_param ctx "SecretId" ≡ some name
    → str_param ctx "SecretString" ≡ some value
    → str_param read "SecretId" ≡ some name
    → read.account_id ≡ ctx.account_id
    → read.region ≡ ctx.region
    → get stores ctx.account_id ctx.region ≡ some store
    → map_get name store.secrets ≡ some s
    → s.deleted ≡ false
    → let answer = (get_secret_value read (put_secret_value now uuid ctx stores).0).1 in
      (answer.status_code ≡ 200)
      × (answer.body
          ≡ json (
              object (
                ("ARN", str s.arn)
                ∷ ("Name", str s.name)
                ∷ ("VersionId", str uuid)
                ∷ ("VersionStages", array (str "AWSCURRENT" ∷ []))
                ∷ ("CreatedDate", num (now / 1000000000))
                ∷ ("SecretString", str value)
                ∷ [])))
unfolding version_response put_value
put_secret_value-get_secret_value now uuid ctx read stores store name value s n sent rn account
      region here found kept =
    let later = put_secret_value-get now uuid ctx stores store name s n here found in
    let got =
      get_secret_value-found read (put_secret_value now uuid ctx stores).0
        (record store {
          secrets = insert name (put_value now uuid (some value) s) store.secrets;
          list_cache = none;
        })
        name (put_value now uuid (some value) s) rn (rw (account, region) (rw sent at later))
        (get-insert name name (put_value now uuid (some value) s) store.secrets ∙ (rw eq_refl refl))
      ∙ secret_response-current (put_value now uuid (some value) s)
          (new_version now uuid (some value)) kept
          (put_value-current_version now uuid (some value) none "" s).0 in
    (ap (λ r. r.status_code) got, ap (λ r. r.body) got)
