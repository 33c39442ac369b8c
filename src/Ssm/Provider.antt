-- ===== src/Ssm/Provider.antt =====
-- crates/services/ssm/src/provider.rs, lines 85 to 293: `dispatch` and its operations. A request leaves
-- the stores of all accounts and regions, and its response.
pub mod Laws
use openstack.Prelude.{
  ℕ, ◌+◌, ◌-◌, ◌/◌, ◌%◌, ◌^◌, String, ◌++◌, Bool, true, false, not, ◌&&◌, ◌||◌, Option, none, some,
  List, [], ◌∷◌, Dict, get as map_get, insert, remove, values, contains_key, retain, map, unwrap_or,
  is_some, eqb, leb, ltb, ◌==◌, if◌then◌else◌,
}
use openstack.Prelude.Text.{strip_prefix, contains_char, trim_start_matches}
use openstack.Prelude.Format.{to_string}
use openstack.Framework.Json.{
  Json, num, other_num, str, object, array, get_field, as_str, as_bool, as_array,
}
use openstack.Framework.Traits.{RequestContext, DispatchResponse, json, Outcome, ok}
use openstack.State.Bundle.{AccountRegionBundle, get, get_or_create, write}
use openstack.Ssm.Store
use openstack.Ssm.Store.{Parameter, ParameterType, SsmStore, string, empty}
use openstack.Ssm.Requests.{
  Stores, json_ok, json_error, str_param, flag_param, names_param, texts, signed, timestamp,
  param_to_json, Answer, required,
}

-- The parameter that a put makes of the request and the one that was there.
unfoldable pub put_parameter_of :
    ℕ → RequestContext → String → String → Option Parameter → Parameter
unfolding Store.from_str str_param flag_param
put_parameter_of now ctx name value old = record {
  name = name;
  type_ = Store.from_str (unwrap_or (str_param ctx "Type") "String");
  value = value;
  description = unwrap_or (str_param ctx "Description") "";
  version = elim old [ none ↦ 1 | some p ↦ (p.version + 1) % 2 ^ 64 ];
  last_modified = now;
  arn = "arn:aws:ssm:" ++ (ctx.region ++ (":" ++ (ctx.account_id ++ (":parameter" ++ name))));
  overwrite = flag_param ctx "Overwrite";
}

-- PutParameter with both required members, on the store that `get_or_create` gives.
unfoldable pub put : ℕ → RequestContext → String → String → Stores → SsmStore → Answer
unfolding put_parameter_of insert write json_ok json_error
put now ctx name value stores store =
    let p = put_parameter_of now ctx name value (map_get name store.parameters) in
    let written =
      write stores ctx.account_id ctx.region
        (record { parameters = insert name p store.parameters }) in
    if contains_key name store.parameters && not (flag_param ctx "Overwrite")
    then (
      stores,
      json_error "ParameterAlreadyExists" ("Parameter " ++ (name ++ " already exists")) 400,
    )
    else (written, json_ok (object (("Version", signed p.version) ∷ ("Tier", str "Standard") ∷ [])))

unfoldable pub put_parameter : ℕ → RequestContext → Stores → Answer
unfolding put get_or_create str_param
put_parameter now ctx stores = elim (str_param ctx "Name") [
  | none ↦ required stores "Name"
  | some name ↦ elim (str_param ctx "Value") [
    | none ↦ required stores "Value"
    | some value ↦
        let (created, store) = get_or_create empty stores ctx.account_id ctx.region in
        put now ctx name value created store
  ]
]

abbrev pub not_found : String → String → DispatchResponse
not_found name stop =
    json_error "ParameterNotFound" ("Parameter " ++ (name ++ (" not found" ++ stop))) 400

unfoldable pub get_parameter : RequestContext → Stores → Answer
unfolding get str_param map_get param_to_json
get_parameter ctx stores = elim (str_param ctx "Name") [
  | none ↦ required stores "Name"
  | some name ↦ elim (get stores ctx.account_id ctx.region) [
    | none ↦ (stores, not_found name ".")
    | some store ↦ elim (map_get name store.parameters) [
      | none ↦ (stores, not_found name ".")
      | some p ↦ (stores, json_ok (object (("Parameter", param_to_json p) ∷ [])))
    ]
  ]
]

-- The loop of GetParameters: what it finds, and the names that it does not find.
unfoldable pub find_all : Dict Parameter → List String → List Parameter × List String
unfolding map_get
find_all ps [] = ([], [])
find_all ps (n ∷ ns) =
    let (found, invalid) = find_all ps ns in
    elim (map_get n ps) [ none ↦ (found, n ∷ invalid) | some p ↦ (p ∷ found, invalid) ]

unfoldable pub get_parameters : RequestContext → Stores → Answer
unfolding get names_param texts find_all
get_parameters ctx stores =
    let names = texts (names_param ctx) in
    elim (get stores ctx.account_id ctx.region) [
      | none ↦ (
        stores,
        json_ok
            (object (("Parameters", array []) ∷ ("InvalidParameters", array (map str names)) ∷ [])),
      )
      | some store ↦
          let (found, invalid) = find_all store.parameters names in
          (
            stores,
            json_ok (
                object (
                  ("Parameters", array (map param_to_json found))
                  ∷ ("InvalidParameters", array (map str invalid))
                  ∷ [])),
          )
    ]

-- The filter of GetParametersByPath.
unfoldable pub matches_path : Bool → String → Parameter → Bool
unfolding strip_prefix contains_char trim_start_matches
matches_path recursive path p = elim (strip_prefix path p.name) [
  | none ↦ false
  | some rest ↦ recursive || not (contains_char b'/' (trim_start_matches b'/' rest))
]

unfoldable pub get_parameters_by_path : RequestContext → Stores → Answer
unfolding get str_param flag_param matches_path
get_parameters_by_path ctx stores = elim (str_param ctx "Path") [
  | none ↦ required stores "Path"
  | some path ↦ elim (get stores ctx.account_id ctx.region) [
    | none ↦ (stores, json_ok (object (("Parameters", array []) ∷ [])))
    | some store ↦
        let ps =
          retain (matches_path (flag_param ctx "Recursive") path) (values store.parameters) in
        (stores, json_ok (object (("Parameters", array (map param_to_json ps)) ∷ [])))
  ]
]

unfoldable pub delete_parameter : RequestContext → Stores → Answer
unfolding get_or_create str_param remove write
delete_parameter ctx stores = elim (str_param ctx "Name") [
  | none ↦ required stores "Name"
  | some name ↦
      let (created, store) = get_or_create empty stores ctx.account_id ctx.region in
      (
        write created ctx.account_id ctx.region
            (record { parameters = remove name store.parameters }),
        if is_some (map_get name store.parameters) then json_ok (object []) else not_found name "",
      )
]

-- What the loop of DeleteParameters leaves.
pub record Deleted : Type 0 where
  pub parameters : Dict Parameter
  pub deleted : List String
  pub invalid : List String

-- The loop of DeleteParameters.
unfoldable pub delete_all : Dict Parameter → List String → Deleted
unfolding map_get remove
delete_all ps [] = record { parameters = ps; deleted = []; invalid = [] }
delete_all ps (n ∷ ns) =
    let rest = delete_all (remove n ps) ns in
    if is_some (map_get n ps)
    then record rest { deleted = n ∷ rest.deleted }
    else record rest { invalid = n ∷ rest.invalid }

unfoldable pub delete_parameters : RequestContext → Stores → Answer
unfolding get_or_create names_param texts delete_all write
delete_parameters ctx stores =
    let (created, store) = get_or_create empty stores ctx.account_id ctx.region in
    let r = delete_all store.parameters (texts (names_param ctx)) in
    (
      write created ctx.account_id ctx.region (record { parameters = r.parameters }),
      json_ok (
          object (
            ("DeletedParameters", array (map str r.deleted))
            ∷ ("InvalidParameters", array (map str r.invalid))
            ∷ [])),
    )

unfoldable pub description_to_json : Parameter → Json
unfolding Store.as_str
description_to_json p = object (
    ("Name", str p.name)
    ∷ ("Type", str (Store.as_str p.type_))
    ∷ ("Description", str p.description)
    ∷ ("Version", signed p.version)
    ∷ ("LastModifiedDate", num (timestamp p.last_modified))
    ∷ ("ARN", str p.arn)
    ∷ [])

unfoldable pub describe_parameters : RequestContext → Stores → Answer
unfolding get description_to_json
describe_parameters ctx stores = elim (get stores ctx.account_id ctx.region) [
  | none ↦ (stores, json_ok (object (("Parameters", array []) ∷ [])))
  | some store ↦ (
    stores,
    json_ok
        (object (("Parameters", array (map description_to_json (values store.parameters))) ∷ [])),
  )
]

abbrev pub operations : ℕ → Dict (RequestContext → Stores → Answer)
operations now =
    ("PutParameter", put_parameter now)
    ∷ ("GetParameter", get_parameter)
    ∷ ("GetParameters", get_parameters)
    ∷ ("GetParametersByPath", get_parameters_by_path)
    ∷ ("DeleteParameter", delete_parameter)
    ∷ ("DeleteParameters", delete_parameters)
    ∷ ("DescribeParameters", describe_parameters)
    ∷ []

-- `dispatch` at the time `now`.
unfoldable pub dispatch : ℕ → RequestContext → Stores → Answer
unfolding map_get
dispatch now ctx stores = elim (map_get ctx.operation (operations now)) [
  | none ↦ (
    stores,
    json_error "NotImplementedException" ("Operation not implemented: " ++ ctx.operation) 501,
  )
  | some operation ↦ operation ctx stores
]
