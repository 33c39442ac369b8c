-- ===== src/Sqs/Handlers/Queues.antt =====
-- The handlers of whole queues.
use openstack.Prelude.{
  ℕ, ◌/◌, String, ◌++◌, Bool, true, false, ◌||◌, Option, none, some, List, [], ◌∷◌, get, any,
  is_nil, unwrap_or, ◌==◌, if◌then◌else◌, not,
}
use openstack.Prelude.Format.{to_string}
use openstack.Framework.Json.{Json}
use openstack.Framework.Traits.{RequestContext, to_str}
use openstack.Sqs.Params.{Params, indexed_key, all_entries, extract_indexed_kv, queue_name_from_url}
use openstack.Sqs.Queue.{
  SqsQueue, purge, approximate_number_of_messages, approximate_number_of_messages_not_visible,
}
use openstack.Sqs.Store.{
  SqsStore, create_queue, delete_queue, list_queues, get_queue_by_name, write_queue,
  apply_queue_attributes,
}
use openstack.Sqs.Xml.{escape_xml}
use openstack.Sqs.Handlers.Reply.{Counters, Reply, wrapped, no_result, missing, no_queue}

-- The region of the queue's host: a header that is text, or the request's region.
abbrev pub host_region : RequestContext → String
host_region ctx = elim (get "x-amz-region" ctx.headers) [
  | none ↦ ctx.region
  | some v ↦ unwrap_or (to_str v) ctx.region
]

-- `base_queue_url`.
unfoldable pub base_queue_url : RequestContext → String
unfolding get
base_queue_url ctx = elim (get "host" ctx.headers) [
  | none ↦ "http://localhost:4566"
  | some host ↦ "http://sqs." ++ host_region ctx ++ ".localhost.localstack.cloud:4566"
]

abbrev pub queue_url_xml : String → String
queue_url_xml url = "<QueueUrl>" ++ escape_xml url ++ "</QueueUrl>"

-- `unwrap` in `create_queue` never fails; the empty text stands for the panic.
abbrev pub url_of : Option SqsQueue → String
url_of none = ""
url_of (some q) = q.url

module _ (from_str : String → Option Json) (now : ℕ) where
  unfoldable pub handle_create_queue : Counters → SqsStore → RequestContext → Params → Reply
  unfolding create_queue extract_indexed_kv base_queue_url wrapped escape_xml
  handle_create_queue counters store ctx params = elim (get "QueueName" params) [
    | none ↦ missing "QueueName" counters store
    | some name ↦
        let attributes = extract_indexed_kv params "Attribute" in
        let base = base_queue_url ctx in
        let (store', q) =
          create_queue from_str now store name base ctx.account_id ctx.region attributes in
        wrapped "CreateQueue" (queue_url_xml (url_of q)) counters store'
  ]

  unfoldable pub handle_set_queue_attributes : Counters → SqsStore → Params → Reply
  unfolding extract_indexed_kv queue_name_from_url apply_queue_attributes no_result
  handle_set_queue_attributes counters store params = elim (get "QueueUrl" params) [
    | none ↦ missing "QueueUrl" counters store
    | some url ↦
        let name = queue_name_from_url url in
        elim (get_queue_by_name name store) [
          | none ↦ no_queue counters store
          | some q ↦
              let attributes = extract_indexed_kv params "Attribute" in
              no_result "SetQueueAttributes" counters
                (write_queue name (apply_queue_attributes from_str now q attributes) store)
        ]
  ]

unfoldable pub handle_delete_queue : Counters → SqsStore → Params → Reply
unfolding queue_name_from_url delete_queue no_result
handle_delete_queue counters store params = elim (get "QueueUrl" params) [
  | none ↦ missing "QueueUrl" counters store
  | some url ↦
      let (store', found) = delete_queue (queue_name_from_url url) store in
      if not found then no_queue counters store' else no_result "DeleteQueue" counters store'
]

abbrev pub urls_xml : List SqsQueue → String
urls_xml [] = ""
urls_xml (q ∷ qs) = queue_url_xml q.url ++ urls_xml qs

unfoldable pub handle_list_queues : Counters → SqsStore → Params → Reply
unfolding list_queues wrapped escape_xml
handle_list_queues counters store params =
    let prefix = unwrap_or (get "QueueNamePrefix" params) "" in
    wrapped "ListQueues" (urls_xml (list_queues prefix store)) counters store

unfoldable pub handle_get_queue_url : Counters → SqsStore → Params → Reply
unfolding get_queue_by_name wrapped escape_xml
handle_get_queue_url counters store params = elim (get "QueueName" params) [
  | none ↦ missing "QueueName" counters store
  | some name ↦ elim (get_queue_by_name name store) [
    | none ↦ no_queue counters store
    | some q ↦ wrapped "GetQueueUrl" (queue_url_xml q.url) counters store
  ]
]

abbrev pub bool_text : Bool → String
bool_text true = "true"
bool_text false = "false"

-- `DateTime::timestamp`, in seconds.
abbrev pub timestamp : ℕ → ℕ
timestamp t = t / 1000000000

-- The attributes in the order of the source, with the counts at `now`.
unfoldable pub queue_attributes : ℕ → SqsQueue → List (String × String)
unfolding to_string approximate_number_of_messages approximate_number_of_messages_not_visible
queue_attributes now q =
    ("QueueArn", q.arn)
    ∷ ("VisibilityTimeout", to_string q.visibility_timeout)
    ∷ ("MessageRetentionPeriod", to_string q.message_retention_period)
    ∷ ("MaximumMessageSize", to_string q.maximum_message_size)
    ∷ ("DelaySeconds", to_string q.delay_seconds)
    ∷ ("ReceiveMessageWaitTimeSeconds", to_string q.receive_message_wait_time_seconds)
    ∷ ("ApproximateNumberOfMessages", to_string (approximate_number_of_messages now q))
    ∷ (
      "ApproximateNumberOfMessagesNotVisible",
      to_string (approximate_number_of_messages_not_visible now q),
    )
    ∷ ("CreatedTimestamp", to_string (timestamp q.created))
    ∷ ("LastModifiedTimestamp", to_string (timestamp q.last_modified))
    ∷ ("FifoQueue", bool_text q.fifo)
    ∷ ("ContentBasedDeduplication", bool_text q.content_based_deduplication)
    ∷ []

abbrev pub attributes_xml : Bool → List String → List (String × String) → String
attributes_xml all requested [] = ""
attributes_xml all requested ((k, v) ∷ rest) =
    (if all || any (λ r. r == k) requested
      then "<Attribute><Name>" ++ k ++ "</Name><Value>" ++ escape_xml v ++ "</Value></Attribute>"
      else "")
    ++ attributes_xml all requested rest

-- The loop over `AttributeName.1`, `AttributeName.2`, …
unfoldable pub requested_attributes : Params → List String
unfolding all_entries indexed_key get
requested_attributes params =
    all_entries params (λ i. get (indexed_key "AttributeName" i "") params)

unfoldable pub handle_get_queue_attributes : ℕ → Counters → SqsStore → Params → Reply
unfolding queue_name_from_url requested_attributes queue_attributes wrapped escape_xml
handle_get_queue_attributes now counters store params = elim (get "QueueUrl" params) [
  | none ↦ missing "QueueUrl" counters store
  | some url ↦ elim (get_queue_by_name (queue_name_from_url url) store) [
    | none ↦ no_queue counters store
    | some q ↦
        let requested = requested_attributes params in
        let all = is_nil requested || any (λ r. r == "All") requested in
        wrapped "GetQueueAttributes" (attributes_xml all requested (queue_attributes now q))
          counters store
  ]
]

unfoldable pub handle_purge_queue : Counters → SqsStore → Params → Reply
unfolding queue_name_from_url get_queue_by_name write_queue purge no_result
handle_purge_queue counters store params = elim (get "QueueUrl" params) [
  | none ↦ missing "QueueUrl" counters store
  | some url ↦
      let name = queue_name_from_url url in
      elim (get_queue_by_name name store) [
        | none ↦ no_queue counters store
        | some q ↦ no_result "PurgeQueue" counters (write_queue name (purge q) store)
      ]
]
