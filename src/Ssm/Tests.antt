-- ===== src/Ssm/Tests.antt =====
-- The theorems on two requests.
use openstack.Prelude.{
  true, ◌≡◌, ◌≢◌, refl, String, none, some, List, [], ◌∷◌, get as lookup, ◌&&◌, is_some, unwrap_or,
  ◌==◌, if◌then◌else◌, arith, ap,
}
use openstack.Prelude.Text.{first_code}
use openstack.Framework.Json.{Json, num, bool, str, array, object}
use openstack.Framework.Traits.{RequestContext, json}
use openstack.State.Scoping.{new as key_new}
use openstack.State.Bundle.{lookup_key, get}
use openstack.Ssm.Store
use openstack.Ssm.Requests.{Stores, flag_param, names_param, texts, str_param}
use openstack.Ssm.Provider.{put_parameter, get_parameter, delete_all, delete_parameters, dispatch}
use openstack.Ssm.Provider.Laws.{
  next_version, store_of, find, accepted, mentions, put_parameter-find, delete_parameters-find,
  put_parameter-get_parameter,
}
use openstack.Ssm.Provider.Laws.Tenants.{dispatch-other_tenant}

abbrev request : String → List (String × Json) → RequestContext
request operation members = record {
  service = "ssm";
  operation = operation;
  region = "us-east-1";
  account_id = "111111111111";
  request_body = object members;
  raw_body = none;
  headers = [];
  query_params = [];
}

abbrev put_request : RequestContext
put_request = request "PutParameter" (("Name", str "/app/db") ∷ ("Value", str "one") ∷ [])

abbrev get_request : RequestContext
get_request = request "GetParameter" (("Name", str "/app/db") ∷ [])

abbrev delete_request : RequestContext
delete_request =
    request "DeleteParameters" (("Names", array (str "/app/db" ∷ str "/none" ∷ [])) ∷ [])

-- The stores behind a put.
abbrev stores : Stores
stores = (put_parameter 5 put_request []).0

put_parameter-find_example :
    find (put_parameter 5 put_request []).0 "111111111111" "us-east-1" "/other" ≡ (
      if accepted put_request (find [] "111111111111" "us-east-1" "/app/db")
        && ("/app/db" == "/other")
      then some (record {
        name = "/app/db";
        type_ = Store.from_str (unwrap_or (str_param put_request "Type") "String");
        value = "one";
        description = unwrap_or (str_param put_request "Description") "";
        version = next_version (find [] "111111111111" "us-east-1" "/app/db");
        last_modified = 5;
        arn = "arn:aws:ssm:us-east-1:111111111111:parameter/app/db";
        overwrite = flag_param put_request "Overwrite";
      })
      else find [] "111111111111" "us-east-1" "/other")
unfolding str_param
put_parameter-find_example = put_parameter-find 5 put_request [] "/app/db" "one" "/other" refl refl

-- The parameter as it is put again, with the next version.
abbrev again : RequestContext
again =
    request "PutParameter"
      (("Name", str "/app/db") ∷ ("Value", str "two") ∷ ("Overwrite", bool true) ∷ [])

put_parameter-get_parameter_example :
    let answer = (get_parameter get_request (put_parameter 2000000000 again stores).0).1 in
    (answer.status_code ≡ 200)
    × (answer.body
        ≡ json (
            object (
              (
                "Parameter",
                object (
                    ("Name", str "/app/db")
                    ∷ ("Type", str "String")
                    ∷ ("Value", str "two")
                    ∷ ("Version", num 2)
                    ∷ ("LastModifiedDate", num 2)
                    ∷ ("ARN", str "arn:aws:ssm:us-east-1:111111111111:parameter/app/db")
                    ∷ ("DataType", str "text")
                    ∷ []),
              )
              ∷ [])))
unfolding put_parameter get lookup key_new lookup_key Store.as_str
put_parameter-get_parameter_example =
    put_parameter-get_parameter 2000000000 again get_request stores "/app/db" "two" refl refl refl
      refl refl refl

delete_parameters-find_example :
    (find (delete_parameters delete_request stores).0 "111111111111" "us-east-1" "/app/db" ≡ (
      if mentions "/app/db" (texts (names_param delete_request))
      then none
      else find stores "111111111111" "us-east-1" "/app/db"))
    × (mentions "/app/db"
          (delete_all
            (store_of stores "111111111111" "us-east-1").parameters
            (texts (names_param delete_request))).deleted
        ≡ (mentions "/app/db" (texts (names_param delete_request))
            && is_some (find stores "111111111111" "us-east-1" "/app/db")))
delete_parameters-find_example = delete_parameters-find delete_request stores "/app/db"

other_account : ◌≢◌ {A = String} "111111111111" "222222222222"
other_account e = omega (arith, ap first_code e)

dispatch-other_tenant_example :
    get (dispatch 6 delete_request stores).0 "222222222222" "us-east-1"
    ≡ get stores "222222222222" "us-east-1"
dispatch-other_tenant_example =
    dispatch-other_tenant 6 delete_request stores "222222222222" "us-east-1" (omega arith)
      (omega arith) (λ e. absurd (other_account e))
