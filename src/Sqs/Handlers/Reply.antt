-- ===== src/Sqs/Handlers/Reply.antt =====
-- What a handler works on and leaves: the two global counters, the store and the response.
use openstack.Prelude.{ℕ, String, ◌++◌}
use openstack.Framework.Traits.{DispatchResponse}
use openstack.Sqs.Store.{SqsStore}
use openstack.Sqs.Xml.{xml_wrap, xml_no_result, sqs_error, new_request_id}

-- `MESSAGE_ID_COUNTER` and `REQUEST_ID_COUNTER`.
pub record Counters : Type 0 where
  pub message_ids : ℕ
  pub request_ids : ℕ

pub record Reply : Type 0 where
  pub counters : Counters
  pub store : SqsStore
  pub response : DispatchResponse

-- `xml_wrap` with a new request id.
unfoldable pub wrapped : String → String → Counters → SqsStore → Reply
unfolding xml_wrap new_request_id
wrapped action inner counters store =
    let (rid, next) = new_request_id counters.request_ids in
    record {
      counters = record counters { request_ids = next };
      store = store;
      response = xml_wrap action rid inner;
    }

-- `xml_no_result` with a new request id.
unfoldable pub no_result : String → Counters → SqsStore → Reply
unfolding xml_no_result new_request_id
no_result action counters store =
    let (rid, next) = new_request_id counters.request_ids in
    record {
      counters = record counters { request_ids = next };
      store = store;
      response = xml_no_result action rid;
    }

-- An error leaves the counters and the store.
unfoldable pub refused : String → String → Counters → SqsStore → Reply
unfolding sqs_error
refused error_code message counters store = record {
  counters = counters;
  store = store;
  response = sqs_error error_code message;
}

abbrev pub missing : String → Counters → SqsStore → Reply
missing what = refused "MissingParameter" (what ++ " is required")

abbrev pub no_queue : Counters → SqsStore → Reply
no_queue = refused "AWS.SimpleQueueService.NonExistentQueue" "Queue does not exist"
