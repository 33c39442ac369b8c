-- ===== src/Sqs/Provider.antt =====
-- crates/services/sqs/src/provider.rs, lines 858 to 1241: `dispatch`, from the parsed parameters on. The
-- parameters are an argument, since the parsing of the body is not modelled.
pub mod Laws
use openstack.Prelude.{
  ℕ, String, ◌++◌, Bool, true, false, Option, none, some, Dict, get as param, ◌==◌, if◌then◌else◌,
  List, [], ◌∷◌, unwrap_or,
}
use openstack.Framework.Json.{Json}
use openstack.Framework.Traits.{
  RequestContext, DispatchResponse, DispatchError, HeaderValue, ascii, opaque, Outcome, ok, err,
  not_implemented,
}
use openstack.State.Bundle.{AccountRegionBundle, get, get_mut, get_or_create, write}
use openstack.Sqs.Params.{Params}
use openstack.Sqs.Store.{SqsStore, empty}
use openstack.Sqs.Handlers.Reply.{Counters, Reply, wrapped, no_queue}
use openstack.Sqs.Handlers.Queues.{
  handle_create_queue, handle_set_queue_attributes, handle_delete_queue, handle_list_queues,
  handle_get_queue_url, handle_get_queue_attributes, handle_purge_queue,
}
use openstack.Sqs.Handlers.Messages.{
  handle_send_message, handle_receive_message, handle_delete_message,
  handle_change_message_visibility,
}
use openstack.Sqs.Handlers.Batches.{
  handle_send_message_batch, handle_delete_message_batch, handle_change_message_visibility_batch,
}
use openstack.Sqs.JsonHandlers

-- The provider's state: the two counters and the stores of all accounts and regions.
pub record SqsProvider : Type 0 where
  pub counters : Counters
  pub stores : AccountRegionBundle SqsStore

-- What a request leaves.
pub record Served : Type 0 where
  pub provider : SqsProvider
  pub outcome : Outcome DispatchResponse

-- `query_mode_json`: the header is there and is `true`.
abbrev pub is_json_mode : Option HeaderValue → Bool
is_json_mode none = false
is_json_mode (some (ascii v)) = v == "true"
is_json_mode (some opaque) = false

-- `params.get("Action").or_else(|| ctx.query_params.get("Action"))`.
abbrev pub action_of : RequestContext → Params → Option String
action_of ctx params = elim (param "Action" params) [
  | none ↦ param "Action" ctx.query_params
  | some a ↦ some a
]

-- A handler on a store, with what it needs of the request.
abbrev pub Handler : Type 0
Handler = Counters → SqsStore → Reply

-- An arm of the `match` on the action: which guard it takes on the store, what it answers where there
-- is no store, and its handler.
pub data Access : Type 0 where
  reads : Handler → Handler → Access
  writes : Handler → Handler → Access
  creates : Handler → Access
  unimplemented : String → Access

-- A read leaves the stores, a write needs a store, and `creates` makes a missing one.
unfoldable pub serve : SqsProvider → RequestContext → Access → Served
unfolding get get_mut get_or_create write
serve p ctx (reads absent handler) = elim (get p.stores ctx.account_id ctx.region) [
  | none ↦
      let r = absent p.counters empty in
      record { provider = record p { counters = r.counters }; outcome = ok r.response }
  | some store ↦
      let r = handler p.counters store in
      record { provider = record p { counters = r.counters }; outcome = ok r.response }
]
serve p ctx (writes absent handler) = elim (get_mut p.stores ctx.account_id ctx.region) [
  | none ↦
      let r = absent p.counters empty in
      record { provider = record p { counters = r.counters }; outcome = ok r.response }
  | some store ↦
      let r = handler p.counters store in
      record {
        provider = record {
          counters = r.counters;
          stores = write p.stores ctx.account_id ctx.region r.store;
        };
        outcome = ok r.response;
      }
]
serve p ctx (creates handler) =
    let (stores, store) = get_or_create empty p.stores ctx.account_id ctx.region in
    let r = handler p.counters store in
    record {
      provider = record {
        counters = r.counters;
        stores = write stores ctx.account_id ctx.region r.store;
      };
      outcome = ok r.response;
    }
serve p ctx (unimplemented action) = record { provider = p; outcome = err (not_implemented action) }

-- `md5_hex` and `from_str` are the digest and the JSON parser of other crates; the clock reads `now`.
module _ (md5_hex : String → String) (from_str : String → Option Json) (now : ℕ)
    (ctx : RequestContext) (params : Params) where
  -- The arms of the JSON protocol.
  unfoldable pub json_arms : Dict Access
  json_arms =
      (
        "GetQueueUrl",
        reads (λ c s. JsonHandlers.absent_url c s params)
            (λ c s. JsonHandlers.get_queue_url c s params),
      )
      ∷ ("CreateQueue", creates (λ c s. JsonHandlers.create from_str now c s ctx params))
      ∷ (
        "SendMessage",
        writes JsonHandlers.no_queue (λ c s. JsonHandlers.send md5_hex now c s params),
      )
      ∷ (
        "ReceiveMessage",
        writes JsonHandlers.no_queue (λ c s. JsonHandlers.receive now c s params),
      )
      ∷ ("DeleteQueue", writes JsonHandlers.no_queue (λ c s. JsonHandlers.delete c s params))
      ∷ []

  -- The arms of the query protocol.
  unfoldable pub query_arms : Dict Access
  query_arms =
      ("ListQueues", reads (wrapped "ListQueues" "") (λ c s. handle_list_queues c s params))
      ∷ ("GetQueueUrl", reads no_queue (λ c s. handle_get_queue_url c s params))
      ∷ ("GetQueueAttributes", reads no_queue (λ c s. handle_get_queue_attributes now c s params))
      ∷ ("CreateQueue", creates (λ c s. handle_create_queue from_str now c s ctx params))
      ∷ ("DeleteQueue", writes no_queue (λ c s. handle_delete_queue c s params))
      ∷ (
        "SetQueueAttributes",
        writes no_queue (λ c s. handle_set_queue_attributes from_str now c s params),
      )
      ∷ ("PurgeQueue", writes no_queue (λ c s. handle_purge_queue c s params))
      ∷ ("SendMessage", writes no_queue (λ c s. handle_send_message md5_hex now c s params))
      ∷ (
        "SendMessageBatch",
        writes no_queue (λ c s. handle_send_message_batch md5_hex now c s params),
      )
      ∷ ("ReceiveMessage", writes no_queue (λ c s. handle_receive_message now c s params))
      ∷ ("DeleteMessage", writes no_queue (λ c s. handle_delete_message c s params))
      ∷ ("DeleteMessageBatch", writes no_queue (λ c s. handle_delete_message_batch c s params))
      ∷ (
        "ChangeMessageVisibility",
        writes no_queue (λ c s. handle_change_message_visibility now c s params),
      )
      ∷ (
        "ChangeMessageVisibilityBatch",
        writes no_queue (λ c s. handle_change_message_visibility_batch now c s params),
      )
      ∷ []

  -- The arm for an action; the last arm is for any other action.
  unfoldable pub route : String → Access
  unfolding json_arms query_arms param
  route action =
      unwrap_or
        (param action
          (if is_json_mode (param "x-amzn-query-mode" ctx.headers) then json_arms else query_arms))
        (unimplemented action)

  -- `dispatch`.
  unfoldable pub dispatch : SqsProvider → Served
  unfolding serve route
  dispatch p = elim (action_of ctx params) [
    | none ↦ serve p ctx (unimplemented "(missing Action)")
    | some action ↦ serve p ctx (route action)
  ]
