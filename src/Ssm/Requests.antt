-- ===== src/Ssm/Requests.antt =====
-- crates/services/ssm/src/provider.rs, lines 30 to 78: responses, and the members of a request.
use openstack.Prelude.{
  ℕ, ◌-◌, ◌/◌, ◌^◌, String, ◌++◌, Bool, false, Option, none, some, List, [], ◌∷◌, unwrap_or, ltb,
  if◌then◌else◌,
}
use openstack.Prelude.Format.{to_string}
use openstack.Framework.Json.{
  Json, num, other_num, str, object, get_field, as_str, as_bool, as_array,
}
use openstack.Framework.Traits.{RequestContext, DispatchResponse, json}
use openstack.State.Bundle.{AccountRegionBundle}
use openstack.Ssm.Store
use openstack.Ssm.Store.{Parameter, ParameterType, SsmStore, string, empty}

abbrev pub Stores : Type 0
Stores = AccountRegionBundle SsmStore

unfoldable pub json_ok : Json → DispatchResponse
json_ok body = record {
  status_code = 200;
  body = json body;
  content_type = "application/x-amz-json-1.1";
  headers = [];
}

unfoldable pub json_error : String → String → ℕ → DispatchResponse
json_error error_code message status = record {
  status_code = status;
  body = json (object (("__type", str error_code) ∷ ("message", str message) ∷ []));
  content_type = "application/json";
  headers = [];
}

unfoldable pub str_param : RequestContext → String → Option String
unfolding get_field
str_param ctx key = elim (get_field key ctx.request_body) [ none ↦ none | some v ↦ as_str v ]

-- A flag of the request, `false` where it is absent or no Boolean.
unfoldable pub flag_param : RequestContext → String → Bool
unfolding get_field
flag_param ctx key = elim (get_field key ctx.request_body) [
  | none ↦ false
  | some v ↦ unwrap_or (as_bool v) false
]

-- The names of a request, an empty list where they are absent or no array.
unfoldable pub names_param : RequestContext → List Json
unfolding get_field
names_param ctx = elim (get_field "Names" ctx.request_body) [
  | none ↦ []
  | some v ↦ unwrap_or (as_array v) []
]

-- `n.as_str()` of each, and those that are texts.
unfoldable pub texts : List Json → List String
texts [] = []
texts (v ∷ vs) = elim (as_str v) [ none ↦ texts vs | some s ↦ s ∷ texts vs ]

-- The number that a 64-bit pattern stands for.
abbrev pub signed : ℕ → Json
signed v = if ltb v (2 ^ 63) then num v else other_num ("-" ++ to_string (2 ^ 64 - v))

abbrev pub timestamp : ℕ → ℕ
timestamp t = t / 1000000000

unfoldable pub param_to_json : Parameter → Json
unfolding Store.as_str
param_to_json p = object (
    ("Name", str p.name)
    ∷ ("Type", str (Store.as_str p.type_))
    ∷ ("Value", str p.value)
    ∷ ("Version", signed p.version)
    ∷ ("LastModifiedDate", num (timestamp p.last_modified))
    ∷ ("ARN", str p.arn)
    ∷ ("DataType", str "text")
    ∷ [])

-- What a request leaves and answers.
abbrev pub Answer : Type 0
Answer = Stores × DispatchResponse

abbrev pub required : Stores → String → Answer
required stores what = (stores, json_error "ValidationException" (what ++ " is required") 400)
