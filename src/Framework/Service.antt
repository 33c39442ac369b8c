-- ===== src/Framework/Service.antt =====
-- What the providers of the JSON protocol share: their responses, the members of a request, and the
-- guards that an operation takes on the store of its account and region. The providers of the
-- stream and key services declare the same helpers, each its own; the lines of the stream service
-- (crates/services/kinesis/src/provider.rs) stand for both.
pub mod Laws
use openstack.Prelude.{
  ◌==◌, ◌+◌, ℕ, ◌-◌, ◌^◌, ◌/◌, String, ◌++◌, Bool, false, Option, none, some, List, [], ◌∷◌,
  unwrap_or, ltb, eqb, if◌then◌else◌,
}
use openstack.Prelude.Text.{strip_prefix}
use openstack.Prelude.Format.{parse_uint, to_string}
use openstack.Framework.Json.{
  Json, num, other_num, str, object, get_field, as_str, as_u64, as_bool, as_array,
}
use openstack.Framework.Traits.{RequestContext, DispatchResponse, json}
use openstack.State.Bundle.{AccountRegionBundle, get, get_mut, get_or_create, write}

unfoldable pub json_ok : Json → DispatchResponse
json_ok body = record {
  status_code = 200;
  body = json body;
  content_type = "application/x-amz-json-1.1";
  headers = [];
}

unfoldable pub json_error : String → String → ℕ → DispatchResponse
json_error error_code message status = record {
  status_code = status;
  body = json (object (("__type", str error_code) ∷ ("message", str message) ∷ []));
  content_type = "application/json";
  headers = [];
}

-- `ctx.request_body.get(key)`, and then `as_str`, `as_u64`, `as_bool`, `as_array`.
unfoldable pub member {ℓ} : {A : Type ℓ} → (Json → Option A) → String → Json → Option A
unfolding get_field
member as_type key body = elim (get_field key body) [ none ↦ none | some v ↦ as_type v ]

unfoldable pub str_param : RequestContext → String → Option String
unfolding member
str_param ctx key = member as_str key ctx.request_body

-- The bit pattern of an `i64` as a JSON number, and back.
abbrev pub signed : ℕ → Json
signed v = if ltb v (2 ^ 63) then num v else other_num ("-" ++ to_string (2 ^ 64 - v))

abbrev pub negated : Option ℕ → Option ℕ
negated none = none
negated (some n) = if eqb n 0 then none else some (2 ^ 64 - n)

unfoldable pub as_i64 : Json → Option ℕ
unfolding strip_prefix parse_uint
as_i64 (num n) = if ltb n (2 ^ 63) then some n else none
as_i64 (other_num text) = elim (strip_prefix "-" text) [
  | none ↦ none
  | some digits ↦ negated (parse_uint (2 ^ 63 + 1) digits)
]
as_i64 _ = none

-- `DateTime::timestamp`, of nanoseconds.
abbrev pub timestamp : ℕ → ℕ
timestamp t = t / 1000000000

-- What a request leaves and answers.
abbrev pub Answer {ℓ} : Type ℓ → Type ℓ
Answer S = AccountRegionBundle S × DispatchResponse

-- An operation behind the checks of its members: it answers without a store; it reads the store, with
-- the answer where there is none; it changes the store that `get_or_create` gives, or the one that
-- `get_mut` finds. An early return behind the guard leaves the store as it is.
pub data Operation {ℓ} (S : Type ℓ) : Type ℓ where
  replies : DispatchResponse → Operation S
  reads : DispatchResponse → (S → DispatchResponse) → Operation S
  changes : (S → S × DispatchResponse) → Operation S
  updates : DispatchResponse → (S → S × DispatchResponse) → Operation S

module _ {ℓ} {S : Type ℓ} where
  -- A member that has to be there.
  abbrev pub require : RequestContext → String → String → (String → Operation S) → Operation S
  require ctx key error_code operation = elim (str_param ctx key) [
    | none ↦ replies (json_error error_code (key ++ " is required") 400)
    | some v ↦ operation v
  ]

  abbrev pub required : RequestContext → String → (String → Operation S) → Operation S
  required ctx key operation = require ctx key "ValidationException" operation

  unfoldable pub perform : S → RequestContext → AccountRegionBundle S → Operation S → Answer S
  unfolding get get_mut get_or_create write
  perform default ctx stores (replies r) = (stores, r)
  perform default ctx stores (reads absent f) = elim (get stores ctx.account_id ctx.region) [
    | none ↦ (stores, absent)
    | some s ↦ (stores, f s)
  ]
  perform default ctx stores (changes f) =
      let (created, s) = get_or_create default stores ctx.account_id ctx.region in
      let (s', r) = f s in (write created ctx.account_id ctx.region s', r)
  perform default ctx stores (updates absent f) = elim (get_mut stores ctx.account_id ctx.region) [
    | none ↦ (stores, absent)
    | some s ↦ let (s', r) = f s in (write stores ctx.account_id ctx.region s', r)
  ]

  unfoldable pub not_implemented : String → Operation S
  not_implemented op =
      replies (json_error "NotImplementedException" ("Operation not implemented: " ++ op) 501)

-- `match op { … }`: the operation of the first arm that is named `op`, else the last one.
unfoldable pub route {ℓ} :
    {S : Type ℓ} → String → List (String × Operation S) → Operation S → Operation S
route op [] others = others
route op ((name, operation) ∷ arms) others =
    let rest = route op arms others in if op == name then operation else rest
