-- ===== src/SecretsManager/Provider.antt =====
-- crates/services/secretsmanager/src/provider.rs: GetSecretValue, PutSecretValue and UpdateSecret. The
-- id that `Uuid::new_v4` makes and the time are arguments.
pub mod Versions
use openstack.Prelude.{
  ℕ, ◌/◌, String, ◌++◌, Bool, true, false, not, Option, none, some, List, [], ◌∷◌, Dict,
  get as map_get, insert, values, contains_key, retain, find_if, map, ◌==◌, if◌then◌else◌,
}
use openstack.Framework.Json.{Json, num, str, object, array, get_field, as_str}
use openstack.Framework.Traits.{RequestContext, DispatchResponse, json}
use openstack.State.Bundle.{AccountRegionBundle, get, get_or_create, write}
use openstack.SecretsManager.Store.{
  Secret, SecretVersion, SecretsManagerStore, is_current, current_version, empty,
}

abbrev pub Stores : Type 0
Stores = AccountRegionBundle SecretsManagerStore

-- What a request leaves and answers.
abbrev pub Answer : Type 0
Answer = Stores × DispatchResponse

unfoldable pub json_ok : Json → DispatchResponse
json_ok body = record {
  status_code = 200;
  body = json body;
  content_type = "application/x-amz-json-1.1";
  headers = [];
}

unfoldable pub json_error : String → String → ℕ → DispatchResponse
json_error error_code message status = record {
  status_code = status;
  body = json (object (("__type", str error_code) ∷ ("Message", str message) ∷ []));
  content_type = "application/json";
  headers = [];
}

unfoldable pub str_param : RequestContext → String → Option String
unfolding get_field
str_param ctx key = elim (get_field key ctx.request_body) [ none ↦ none | some v ↦ as_str v ]

-- The name under which a secret is kept, from its name or its ARN.
unfoldable pub resolve_secret_name : SecretsManagerStore → String → Option String
unfolding map_get
resolve_secret_name store secret_id =
    if contains_key secret_id store.secrets
    then some secret_id
    else elim (map_get secret_id store.arn_index) [
      | some name ↦ some name
      | none ↦ elim (find_if (λ s. s.arn == secret_id) (values store.secrets)) [
        | none ↦ none
        | some s ↦ some s.name
      ]
    ]

-- The secret that an id stands for, with its key.
unfoldable pub resolve : SecretsManagerStore → String → Option (String × Secret)
unfolding resolve_secret_name map_get
resolve store secret_id = elim (resolve_secret_name store secret_id) [
  | none ↦ none
  | some name ↦ elim (map_get name store.secrets) [ none ↦ none | some s ↦ some (name, s) ]
]

abbrev pub required : DispatchResponse
required = json_error "ValidationException" "SecretId is required" 400

abbrev pub cannot_find : DispatchResponse
cannot_find =
    json_error "ResourceNotFoundException" "Secrets Manager can't find the specified secret." 400

abbrev pub not_found : String → DispatchResponse
not_found secret_id =
    json_error "ResourceNotFoundException" ("Secret " ++ (secret_id ++ " not found")) 400

abbrev pub timestamp : ℕ → ℕ
timestamp t = t / 1000000000

-- The value's member, where the version has one.
abbrev pub string_member : Option String → List (String × Json)
string_member none = []
string_member (some s) = ("SecretString", str s) ∷ []

unfoldable pub version_response : Secret → SecretVersion → DispatchResponse
unfolding json_ok
version_response s v = json_ok (
    object (
      ("ARN", str s.arn)
      ∷ ("Name", str s.name)
      ∷ ("VersionId", str v.version_id)
      ∷ ("VersionStages", array (map str v.version_stages))
      ∷ ("CreatedDate", num (timestamp v.created))
      ∷ string_member v.secret_string))

-- The answer of GetSecretValue for a secret that is there.
unfoldable pub secret_response : Secret → DispatchResponse
unfolding current_version version_response
secret_response s =
    if s.deleted
    then json_error "InvalidRequestException" "Secret is scheduled for deletion" 400
    else elim (current_version s) [
      | none ↦ json_error "ResourceNotFoundException" "No current version" 400
      | some v ↦ version_response s v
    ]

unfoldable pub get_secret_value : RequestContext → Stores → Answer
unfolding get str_param resolve secret_response
get_secret_value ctx stores = elim (str_param ctx "SecretId") [
  | none ↦ (stores, required)
  | some secret_id ↦ elim (get stores ctx.account_id ctx.region) [
    | none ↦ (stores, cannot_find)
    | some store ↦ elim (resolve store secret_id) [
      | none ↦ (stores, cannot_find)
      | some (name, s) ↦ (stores, secret_response s)
    ]
  ]
]

-- `retain` of the stages that are not `AWSCURRENT`.
abbrev pub other_stages : List String → List String
other_stages stages = retain (λ s. not (s == "AWSCURRENT")) stages

unfoldable pub push_stage : List String → String → List String
push_stage [] s = s ∷ []
push_stage (t ∷ ts) s = t ∷ push_stage ts s

unfoldable pub push_version : List SecretVersion → SecretVersion → List SecretVersion
push_version [] v = v ∷ []
push_version (w ∷ ws) v = w ∷ push_version ws v

-- The body of the loop in PutSecretValue, and of that in UpdateSecret.
unfoldable pub demote : SecretVersion → SecretVersion
unfolding push_stage
demote v =
    if is_current v
    then record v { version_stages = push_stage (other_stages v.version_stages) "AWSPREVIOUS" }
    else v

unfoldable pub strip : SecretVersion → SecretVersion
strip v = record v { version_stages = other_stages v.version_stages }

abbrev pub new_version : ℕ → String → Option String → SecretVersion
new_version now uuid secret_string = record {
  version_id = uuid;
  secret_string = secret_string;
  secret_binary = none;
  created = now;
  version_stages = "AWSCURRENT" ∷ [];
}

-- What PutSecretValue makes of the secret.
unfoldable pub put_value : ℕ → String → Option String → Secret → Secret
unfolding demote push_version
put_value now uuid secret_string s = record s {
  versions = push_version (map demote s.versions) (new_version now uuid secret_string);
  last_changed = now;
}

-- PutSecretValue on the store that `get_or_create` gives, with what the id stands for.
unfoldable pub put_resolved :
    ℕ
    → String
    → RequestContext
    → String
    → Stores
    → SecretsManagerStore
    → Option (String × Secret)
    → Answer
unfolding str_param put_value insert write
put_resolved now uuid ctx secret_id created store none = (created, not_found secret_id)
put_resolved now uuid ctx secret_id created store (some (name, s)) = (
  write created ctx.account_id ctx.region (record store {
    secrets = insert name (put_value now uuid (str_param ctx "SecretString") s) store.secrets;
    list_cache = none;
  }),
  json_ok (
      object (
        ("ARN", str s.arn)
        ∷ ("Name", str s.name)
        ∷ ("VersionId", str uuid)
        ∷ ("VersionStages", array (str "AWSCURRENT" ∷ []))
        ∷ [])),
)

unfoldable pub put_secret_value : ℕ → String → RequestContext → Stores → Answer
unfolding get_or_create str_param resolve put_resolved
put_secret_value now uuid ctx stores = elim (str_param ctx "SecretId") [
  | none ↦ (stores, required)
  | some secret_id ↦
      let (created, store) = get_or_create empty stores ctx.account_id ctx.region in
      put_resolved now uuid ctx secret_id created store (resolve store secret_id)
]

-- What UpdateSecret makes of the secret.
unfoldable pub update : ℕ → String → Option String → Option String → Secret → Secret
unfolding strip push_version
update now uuid description secret_string s = record s {
  description = elim description [ none ↦ s.description | some d ↦ d ];
  versions = elim secret_string [
    | none ↦ s.versions
    | some ss ↦ push_version (map strip s.versions) (new_version now uuid (some ss))
  ];
  last_changed = now;
}

unfoldable pub update_secret : ℕ → String → RequestContext → Stores → Answer
unfolding get_or_create str_param resolve update insert write
update_secret now uuid ctx stores = elim (str_param ctx "SecretId") [
  | none ↦ (stores, required)
  | some secret_id ↦
      let (created, store) = get_or_create empty stores ctx.account_id ctx.region in
      elim (resolve store secret_id) [
        | none ↦ (created, not_found secret_id)
        | some (name, s) ↦ (
          write created ctx.account_id ctx.region (record store {
            secrets =
                insert name
                  (update now uuid (str_param ctx "Description") (str_param ctx "SecretString") s)
                  store.secrets;
            list_cache = none;
          }),
          json_ok (object (("ARN", str s.arn) ∷ ("Name", str s.name) ∷ [])),
        )
      ]
]
