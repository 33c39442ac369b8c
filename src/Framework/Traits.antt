-- ===== src/Framework/Traits.antt =====
-- crates/service-framework/src/traits.rs: requests, responses and errors of a provider.
use openstack.Prelude.{ℕ, String, Option, none, some, List, Dict}
use openstack.Framework.Json.{Json}

-- A header's value: text that `to_str` accepts, or other bytes.
pub data HeaderValue : Type 0 where
  ascii : String → HeaderValue
  opaque : HeaderValue

-- `v.to_str().ok()`.
abbrev pub to_str : HeaderValue → Option String
to_str (ascii s) = some s
to_str opaque = none

-- The bytes of a body: UTF-8 text, or other bytes.
pub data RawBody : Type 0 where
  text : String → RawBody
  binary : List ℕ → RawBody

-- The fields that the modelled providers read.
pub record RequestContext : Type 0 where
  pub service : String
  pub operation : String
  pub region : String
  pub account_id : String
  pub request_body : Json
  pub raw_body : Option RawBody
  pub headers : Dict HeaderValue
  pub query_params : Dict String

-- A buffered body: text, or a JSON value that `serde_json` prints.
pub data ResponseBody : Type 0 where
  xml : String → ResponseBody
  json : Json → ResponseBody

pub record DispatchResponse : Type 0 where
  pub status_code : ℕ
  pub body : ResponseBody
  pub content_type : String
  pub headers : List (String × String)

pub data DispatchError : Type 0 where
  not_implemented : String → DispatchError
  service_not_found : String → DispatchError
  service_unavailable : String → DispatchError
  provider_error : String → DispatchError
  serialization_error : String → DispatchError

-- `Result<A, DispatchError>`.
pub data Outcome {ℓ} (A : Type ℓ) : Type ℓ where
  ok : A → Outcome A
  err : DispatchError → Outcome A
