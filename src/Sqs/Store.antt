-- ===== src/Sqs/Store.antt =====
-- crates/services/sqs/src/store.rs, lines 393 to 502: the queues of one account and region, and the
-- attributes of a queue.
pub mod Laws
use openstack.Prelude.{
  ℕ, zero, suc, ◌%◌, String, ◌++◌, Bool, Option, none, some, List, [], ◌∷◌, Dict, get, insert,
  remove, contains_key, values, retain, find_if, unwrap_or, is_some, ◌==◌, if◌then◌else◌,
}
use openstack.Prelude.Format.{parse_uint}
use openstack.Prelude.Text.{has_prefix, after_last}
use openstack.Framework.Json.{Json, null, get_field, as_str, as_u64}
use openstack.Sqs.Message.{u32}
use openstack.Sqs.Queue
use openstack.Sqs.Queue.{SqsQueue, RedrivePolicy}

pub record SqsStore : Type 0 where
  pub queues : Dict SqsQueue

abbrev pub empty : SqsStore
empty = record { queues = [] }

-- The value that a present attribute with a 32-bit number sets; else the old value.
abbrev pub parsed_or : Option String → ℕ → ℕ
parsed_or none old = old
parsed_or (some v) old = unwrap_or (parse_uint u32 v) old

abbrev pub flag_or : Option String → Bool → Bool
flag_or none old = old
flag_or (some v) old = v == "true"

-- The policy of a parsed JSON text; a missing number is 3, and `as u32` truncates.
unfoldable pub redrive_policy_of : Json → RedrivePolicy
unfolding get_field
redrive_policy_of rp = record {
  dead_letter_target_arn =
      unwrap_or (as_str (unwrap_or (get_field "deadLetterTargetArn" rp) null)) "";
  max_receive_count = unwrap_or (as_u64 (unwrap_or (get_field "maxReceiveCount" rp) null)) 3 % u32;
}

-- `from_str` is `serde_json::from_str`.
module _ (from_str : String → Option Json) where
  abbrev pub policy_or : Option String → Option RedrivePolicy → Option RedrivePolicy
  policy_or none old = old
  policy_or (some v) old = elim (from_str v) [ none ↦ old | some rp ↦ some (redrive_policy_of rp) ]

  -- `apply_queue_attributes` at the time `now`.
  unfoldable pub apply_queue_attributes : ℕ → SqsQueue → Dict String → SqsQueue
  unfolding get parse_uint redrive_policy_of
  apply_queue_attributes now q attrs = record q {
    visibility_timeout = parsed_or (get "VisibilityTimeout" attrs) q.visibility_timeout;
    message_retention_period =
        parsed_or (get "MessageRetentionPeriod" attrs) q.message_retention_period;
    maximum_message_size = parsed_or (get "MaximumMessageSize" attrs) q.maximum_message_size;
    delay_seconds = parsed_or (get "DelaySeconds" attrs) q.delay_seconds;
    receive_message_wait_time_seconds =
        parsed_or (get "ReceiveMessageWaitTimeSeconds" attrs) q.receive_message_wait_time_seconds;
    content_based_deduplication =
        flag_or (get "ContentBasedDeduplication" attrs) q.content_based_deduplication;
    redrive_policy = policy_or (get "RedrivePolicy" attrs) q.redrive_policy;
    last_modified = now;
  }

  -- `create_queue`: the store, and the queue that `get(&name).unwrap()` finds in it.
  unfoldable pub create_queue :
      ℕ → SqsStore → String → String → String → String → Dict String → SqsStore × Option SqsQueue
  unfolding apply_queue_attributes Queue.new insert
  create_queue now store name base_url account_id region attributes =
      let q =
        apply_queue_attributes now (Queue.new now name base_url account_id region) attributes in
      let queues' =
        if contains_key name store.queues then store.queues else insert name q store.queues in
      (record { queues = queues' }, get name queues')

-- `get_queue_by_name`, and the queue that `get_queue_by_name_mut` lends.
unfoldable pub get_queue_by_name : String → SqsStore → Option SqsQueue
unfolding get
get_queue_by_name name store = get name store.queues

-- What a caller of `get_queue_by_name_mut` leaves in the queue that it was lent.
unfoldable pub write_queue : String → SqsQueue → SqsStore → SqsStore
unfolding insert
write_queue name q store = record { queues = insert name q store.queues }

unfoldable pub get_queue_by_url : String → SqsStore → Option SqsQueue
get_queue_by_url url store = find_if (λ q. q.url == url) (values store.queues)

-- `queue_name_from_url` of the store.
unfoldable pub queue_name_from_url : String → Option String
unfolding after_last
queue_name_from_url url = some (after_last b'/' url)

-- `delete_queue`: the store, and whether there was such a queue.
unfoldable pub delete_queue : String → SqsStore → SqsStore × Bool
unfolding remove get
delete_queue name store =
    (record { queues = remove name store.queues }, is_some (get name store.queues))

unfoldable pub list_queues : String → SqsStore → List SqsQueue
list_queues prefix store = retain (λ q. has_prefix prefix q.name) (values store.queues)
