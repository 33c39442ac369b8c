-- ===== src/SecretsManager/Tests.antt =====
-- The theorems on one secret.
use openstack.Prelude.{◌≡◌, refl, String, false, none, some, List, [], ◌∷◌, count_if, get as lookup}
use openstack.Framework.Json.{Json, num, str, object, array}
use openstack.Framework.Traits.{RequestContext, json}
use openstack.State.Scoping.{new as key_new}
use openstack.State.Bundle.{lookup_key, get, write, get-write_self}
use openstack.SecretsManager.Store.{Secret, SecretsManagerStore, is_current, current_version}
use openstack.SecretsManager.Provider.{
  json_ok, Stores, new_version, put_value, update, str_param, get_secret_value, put_secret_value,
}
use openstack.Framework.Service.{perform}
use openstack.SecretsManager.Management.{
  Fresh, new_secret, list_json, arms, answer_of, create_secret, create_in, list_secrets, list_in,
  rebuild_list_cache, dispatch,
}
use openstack.SecretsManager.Management.Listing.{after, after-list_secrets}
use openstack.SecretsManager.Provider.Versions.{
  put_value-current_version, put_secret_value-get_secret_value,
}

abbrev secret : Secret
secret = record {
  arn = "arn:db";
  name = "db";
  description = "";
  created = 1;
  last_changed = 1;
  deleted = false;
  deletion_date = none;
  versions = new_version 1 "v1" (some "one") ∷ [];
  tags = [];
}

abbrev one_secret : SecretsManagerStore
one_secret = record {
  secrets = ("db", secret) ∷ [];
  arn_index = ("arn:db", "db") ∷ [];
  list_cache = none;
}

abbrev stores : Stores
stores = write [] "111111111111" "us-east-1" one_secret

abbrev request : List (String × Json) → RequestContext
request members = record {
  service = "secretsmanager";
  operation = "";
  region = "us-east-1";
  account_id = "111111111111";
  request_body = object members;
  raw_body = none;
  headers = [];
  query_params = [];
}

abbrev put_request : RequestContext
put_request = request (("SecretId", str "db") ∷ ("SecretString", str "two") ∷ [])

abbrev get_request : RequestContext
get_request = request (("SecretId", str "db") ∷ [])

put_value-current_version_example :
    (current_version (put_value 2 "v2" (some "two") secret)
      ≡ some (new_version 2 "v2" (some "two")))
    × (count_if is_current (put_value 2 "v2" (some "two") secret).versions ≡ 1)
    × (current_version (update 2 "v2" none (some "three") secret)
        ≡ some (new_version 2 "v2" (some "three")))
    × (count_if is_current (update 2 "v2" none (some "three") secret).versions ≡ 1)
put_value-current_version_example =
    put_value-current_version 2 "v2" (some "two") none "three" secret

put_secret_value-get_secret_value_example :
    let answer = (get_secret_value get_request (put_secret_value 2 "v2" put_request stores).0).1 in
    (answer.status_code ≡ 200)
    × (answer.body
        ≡ json (
            object (
              ("ARN", str "arn:db")
              ∷ ("Name", str "db")
              ∷ ("VersionId", str "v2")
              ∷ ("VersionStages", array (str "AWSCURRENT" ∷ []))
              ∷ ("CreatedDate", num 0)
              ∷ ("SecretString", str "two")
              ∷ [])))
unfolding str_param lookup
put_secret_value-get_secret_value_example =
    put_secret_value-get_secret_value 2 "v2" put_request get_request stores one_secret "db" "two"
      secret refl refl refl refl refl (get-write_self [] "111111111111" "us-east-1" one_secret) refl
      refl

abbrev named : String → List (String × Json) → RequestContext
named operation members = record (request members) { operation = operation }

abbrev creation : RequestContext
creation = named "CreateSecret" (("Name", str "db") ∷ ("SecretString", str "one") ∷ [])

abbrev fresh : Fresh
fresh = record { now = 1; first_uuid = "abcdef-1"; second_uuid = "v1" }

abbrev history : List (Fresh × RequestContext)
history = (fresh, creation) ∷ (fresh, named "ListSecrets" []) ∷ []

-- The store that the history leaves, with a response in its cache.
abbrev listed : SecretsManagerStore
listed = record {
  secrets = ("db", new_secret fresh creation "db") ∷ [];
  arn_index = ((new_secret fresh creation "db").arn, "db") ∷ [];
  list_cache = some (list_json (("db", new_secret fresh creation "db") ∷ []));
}

listed_found : get (after history []) "111111111111" "us-east-1" ≡ some listed
unfolding after dispatch arms answer_of perform create_secret create_in list_secrets list_in
    rebuild_list_cache key_new lookup_key
listed_found = refl

after-list_secrets_example :
    (dispatch fresh (named "ListSecrets" []) (after history [])).1
    ≡ json_ok (list_json listed.secrets)
after-list_secrets_example =
    after-list_secrets history fresh (named "ListSecrets" []) listed refl listed_found
