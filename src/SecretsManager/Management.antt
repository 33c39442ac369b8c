-- ===== src/SecretsManager/Management.antt =====
-- crates/services/secretsmanager/src/provider.rs: CreateSecret, DescribeSecret, ListSecrets with its cache,
-- DeleteSecret and RestoreSecret, and `dispatch`. A cached response is the value that was printed.
pub mod Listing
use openstack.Prelude.{
  ℕ, ◌+◌, ◌*◌, String, ◌++◌, Bool, true, false, not, Option, none, some, List, [], ◌∷◌, Dict,
  get as map_get, insert, remove, values, retain, map, unwrap_or, if◌then◌else◌, ◌==◌,
}
use openstack.Prelude.Text.{take_chars}
use openstack.Framework.Json.{Json, num, str, object, array, as_bool}
use openstack.Framework.Traits.{RequestContext, DispatchResponse}
use openstack.Framework.Service.{member, Operation, replies, reads, changes, updates, perform}
use openstack.SecretsManager.Store.{Secret, SecretVersion, SecretsManagerStore, empty}
use openstack.SecretsManager.Provider.{
  Stores, Answer, json_ok, json_error, str_param, resolve, required, not_found, timestamp,
  new_version, get_secret_value, put_secret_value, update_secret,
}

-- The time of a request, and the ids that it draws.
pub record Fresh : Type 0 where
  pub now : ℕ
  pub first_uuid : String
  pub second_uuid : String

abbrev with_id :
    RequestContext → (String → Operation SecretsManagerStore) → Operation SecretsManagerStore
with_id ctx f = elim (str_param ctx "SecretId") [ none ↦ replies required | some id ↦ f id ]

unfoldable pub new_secret : Fresh → RequestContext → String → Secret
unfolding str_param take_chars
new_secret fresh ctx name = record {
  arn =
      "arn:aws:secretsmanager:"
      ++ ctx.region
      ++ ":"
      ++ ctx.account_id
      ++ ":secret:"
      ++ name
      ++ "-"
      ++ take_chars 6 fresh.first_uuid;
  name = name;
  description = unwrap_or (str_param ctx "Description") "";
  created = fresh.now;
  last_changed = fresh.now;
  deleted = false;
  deletion_date = none;
  versions = new_version fresh.now fresh.second_uuid (str_param ctx "SecretString") ∷ [];
  tags = [];
}

-- The index of the ARNs without that of the secret that is replaced.
abbrev forget : Option Secret → Dict String → Dict String
forget none index = index
forget (some old) index = remove old.arn index

-- A secret that is there blocks its name unless it is deleted.
abbrev is_live : Option Secret → Bool
is_live none = false
is_live (some s) = not s.deleted

unfoldable pub create_in :
    String → Secret → String → SecretsManagerStore → SecretsManagerStore × DispatchResponse
unfolding json_ok json_error
create_in name secret version_id store =
    if is_live (map_get name store.secrets)
    then (store, json_error "ResourceExistsException" ("Secret " ++ name ++ " already exists") 400)
    else (
      record {
        secrets = insert name secret store.secrets;
        arn_index = insert secret.arn name (forget (map_get name store.secrets) store.arn_index);
        list_cache = none;
      },
      json_ok (
          object
            (("ARN", str secret.arn) ∷ ("Name", str name) ∷ ("VersionId", str version_id) ∷ [])),
    )

unfoldable pub create_secret : Fresh → RequestContext → Operation SecretsManagerStore
unfolding create_in new_secret str_param json_error
create_secret fresh ctx = elim (str_param ctx "Name") [
  | none ↦ replies (json_error "ValidationException" "Name is required" 400)
  | some name ↦ changes (create_in name (new_secret fresh ctx name) fresh.second_uuid)
]

abbrev deleted_member : Option ℕ → List (String × Json)
deleted_member none = []
deleted_member (some t) = ("DeletedDate", num (timestamp t)) ∷ []

-- `SecretSummary::from_secret`, printed.
unfoldable pub summary : Secret → Json
summary s = object (
    ("ARN", str s.arn)
    ∷ ("Name", str s.name)
    ∷ ("Description", str s.description)
    ∷ ("CreatedDate", num (timestamp s.created))
    ∷ ("LastChangedDate", num (timestamp s.last_changed))
    ∷ deleted_member s.deletion_date)

unfoldable pub summary_of : String → SecretsManagerStore → DispatchResponse
unfolding resolve summary json_ok
summary_of id store = elim (resolve store id) [
  | none ↦ not_found id
  | some (name, s) ↦ json_ok (summary s)
]

unfoldable pub describe_secret : RequestContext → Operation SecretsManagerStore
unfolding str_param summary_of
describe_secret ctx = with_id ctx (λ id. reads (not_found id) (summary_of id))

-- `ListSecretsResponse` of the secrets that are not deleted.
unfoldable pub list_json : Dict Secret → Json
unfolding summary
list_json secrets =
    object (("SecretList", array (map summary (retain (λ s. not s.deleted) (values secrets)))) ∷ [])

unfoldable pub rebuild_list_cache : SecretsManagerStore → SecretsManagerStore
unfolding list_json
rebuild_list_cache store = record store { list_cache = some (list_json store.secrets) }

-- The cached answer, made first where there is none.
unfoldable pub list_in : SecretsManagerStore → SecretsManagerStore × DispatchResponse
unfolding rebuild_list_cache json_ok
list_in store = elim store.list_cache [
  | some cached ↦ (store, json_ok cached)
  | none ↦
      let rebuilt = rebuild_list_cache store in
      (rebuilt, json_ok (unwrap_or rebuilt.list_cache (object (("SecretList", array []) ∷ []))))
]

unfoldable pub list_secrets : Operation SecretsManagerStore
unfolding list_in json_ok
list_secrets = updates (json_ok (object (("SecretList", array []) ∷ []))) list_in

abbrev thirty_days : ℕ
thirty_days = 30 * 86400 * 1000000000

-- The secret with the id is removed, or marked for deletion in thirty days.
unfoldable pub delete_in :
    Bool → ℕ → String → SecretsManagerStore → SecretsManagerStore × DispatchResponse
unfolding resolve json_ok
delete_in force now id store = elim (resolve store id) [
  | none ↦ (store, not_found id)
  | some (name, s) ↦
      if force
      then (
        record {
          secrets = remove name store.secrets;
          arn_index = remove s.arn store.arn_index;
          list_cache = none;
        },
        json_ok (object (("ARN", str s.arn) ∷ ("Name", str s.name) ∷ [])),
      )
      else (
        record store {
          secrets =
              insert name (record s { deleted = true; deletion_date = some (now + thirty_days) })
                store.secrets;
          list_cache = none;
        },
        json_ok (
            object (
              ("ARN", str s.arn)
              ∷ ("Name", str s.name)
              ∷ ("DeletionDate", num (timestamp (now + thirty_days)))
              ∷ [])),
      )
]

unfoldable pub delete_secret : Fresh → RequestContext → Operation SecretsManagerStore
unfolding str_param delete_in member
delete_secret fresh ctx = with_id ctx (λ id.
    let force = unwrap_or (member as_bool "ForceDeleteWithoutRecovery" ctx.request_body) false in
    changes (delete_in force fresh.now id))

unfoldable pub restore_in : String → SecretsManagerStore → SecretsManagerStore × DispatchResponse
unfolding resolve json_ok
restore_in id store = elim (resolve store id) [
  | none ↦ (store, not_found id)
  | some (name, s) ↦ (
    record store {
      secrets = insert name (record s { deleted = false; deletion_date = none }) store.secrets;
      list_cache = none;
    },
    json_ok (object (("ARN", str s.arn) ∷ ("Name", str s.name) ∷ [])),
  )
]

unfoldable pub restore_secret : RequestContext → Operation SecretsManagerStore
unfolding str_param restore_in
restore_secret ctx = with_id ctx (λ id. changes (restore_in id))

-- The arms of the `match` on the operation.
unfoldable pub arms : Fresh → RequestContext → Stores → List (String × Answer)
unfolding perform create_secret describe_secret list_secrets delete_secret restore_secret
    get_secret_value put_secret_value update_secret
arms fresh ctx stores =
    ("CreateSecret", perform empty ctx stores (create_secret fresh ctx))
    ∷ ("GetSecretValue", get_secret_value ctx stores)
    ∷ ("PutSecretValue", put_secret_value fresh.now fresh.first_uuid ctx stores)
    ∷ ("UpdateSecret", update_secret fresh.now fresh.first_uuid ctx stores)
    ∷ ("DescribeSecret", perform empty ctx stores (describe_secret ctx))
    ∷ ("ListSecrets", perform empty ctx stores list_secrets)
    ∷ ("DeleteSecret", perform empty ctx stores (delete_secret fresh ctx))
    ∷ ("RestoreSecret", perform empty ctx stores (restore_secret ctx))
    ∷ []

unfoldable pub answer_of : String → List (String × Answer) → Answer → Answer
answer_of op [] others = others
answer_of op ((name, answer) ∷ rest) others =
    let later = answer_of op rest others in if op == name then answer else later

-- `SecretsManagerProvider::dispatch`.
unfoldable pub dispatch : Fresh → RequestContext → Stores → Answer
unfolding arms answer_of json_error
dispatch fresh ctx stores = answer_of ctx.operation (arms fresh ctx stores) (
  stores,
  json_error "NotImplementedException" ("Operation not implemented: " ++ ctx.operation) 501,
)
