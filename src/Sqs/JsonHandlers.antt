-- ===== src/Sqs/JsonHandlers.antt =====
-- crates/services/sqs/src/provider.rs, lines 883 to 1091: the operations of the JSON protocol, on the store
-- that the dispatcher has locked.
use openstack.Prelude.{
  ℕ, String, ◌++◌, Option, none, some, List, [], ◌∷◌, get, get_elem?, if◌then◌else◌,
}
use openstack.Framework.Json.{Json, str, object, array}
use openstack.Framework.Traits.{RequestContext}
use openstack.Sqs.Message.{u32, SqsMessage, SendMessageResult}
use openstack.Sqs.Params.{
  Params, extract_indexed_kv, extract_message_attributes, queue_name_from_url,
}
use openstack.Sqs.Queue.{send_message, receive_messages}
use openstack.Sqs.Store.{SqsStore, create_queue, get_queue_by_name, write_queue, delete_queue}
use openstack.Sqs.Xml.{sqs_json_response, sqs_json_error}
use openstack.Sqs.Handlers.Reply.{Counters, Reply}
use openstack.Sqs.Handlers.Queues.{base_queue_url, url_of}
use openstack.Sqs.Handlers.Messages.{number_param, max_messages}

-- A JSON response takes no request id.
unfoldable pub answered : Json → Counters → SqsStore → Reply
unfolding sqs_json_response
answered value counters store = record {
  counters = counters;
  store = store;
  response = sqs_json_response value;
}

unfoldable pub refused : String → String → Counters → SqsStore → Reply
unfolding sqs_json_error
refused error_code message counters store = record {
  counters = counters;
  store = store;
  response = sqs_json_error error_code message 400;
}

abbrev pub missing : String → Counters → SqsStore → Reply
missing what = refused "MissingParameter" (what ++ " is required")

abbrev pub no_queue : Counters → SqsStore → Reply
no_queue = refused "AWS.SimpleQueueService.NonExistentQueue" "The specified queue does not exist."

unfoldable pub get_queue_url : Counters → SqsStore → Params → Reply
unfolding get_queue_by_name
get_queue_url counters store params = elim (get "QueueName" params) [
  | none ↦ missing "QueueName" counters store
  | some name ↦ elim (get_queue_by_name name store) [
    | none ↦ no_queue counters store
    | some q ↦ answered (object (("QueueUrl", str q.url) ∷ [])) counters store
  ]
]

-- `get_queue_url` where the store does not exist: the name is asked for first.
unfoldable pub absent_url : Counters → SqsStore → Params → Reply
absent_url counters store params = elim (get "QueueName" params) [
  | none ↦ missing "QueueName" counters store
  | some name ↦ no_queue counters store
]

unfoldable pub create :
    (String → Option Json) → ℕ → Counters → SqsStore → RequestContext → Params → Reply
create from_str now counters store ctx params = elim (get "QueueName" params) [
  | none ↦ missing "QueueName" counters store
  | some name ↦
      let (store', q) =
        create_queue from_str now store name (base_queue_url ctx) ctx.account_id ctx.region
          (extract_indexed_kv params "Attribute") in
      answered (object (("QueueUrl", str (url_of q)) ∷ [])) counters store'
]

abbrev pub sent_json : Option SendMessageResult → Json
sent_json none = object (("MessageId", str "duplicate") ∷ ("MD5OfMessageBody", str "") ∷ [])
sent_json (some msg) =
    object (("MessageId", str msg.message_id) ∷ ("MD5OfMessageBody", str msg.md5_of_body) ∷ [])

unfoldable pub send : (String → String) → ℕ → Counters → SqsStore → Params → Reply
unfolding get_queue_by_name
send md5_hex now counters store params = elim (get "QueueUrl" params) [
  | none ↦ missing "QueueUrl" counters store
  | some url ↦ elim (get "MessageBody" params) [
    | none ↦ missing "MessageBody" counters store
    | some body ↦
        let name = queue_name_from_url url in
        elim (get_queue_by_name name store) [
          | none ↦ no_queue counters store
          | some q ↦
              let sent =
                send_message md5_hex counters.message_ids now q body
                  (number_param u32 "DelaySeconds" params) (extract_message_attributes params)
                  (get "MessageGroupId" params) (get "MessageDeduplicationId" params) in
              answered (sent_json sent.result) (record counters { message_ids = sent.counter })
                (write_queue name sent.queue store)
        ]
  ]
]

abbrev pub message_json : SqsMessage → Json
message_json msg = object (
    ("MessageId", str msg.message_id)
    ∷ ("ReceiptHandle", str msg.receipt_handle)
    ∷ ("MD5OfBody", str msg.md5_of_body)
    ∷ ("Body", str msg.body)
    ∷ [])

unfoldable pub messages_json : List SqsMessage → List ℕ → List Json
messages_json messages [] = []
messages_json messages (idx ∷ rest) = elim (get_elem? messages idx) [
  | none ↦ messages_json messages rest
  | some msg ↦ message_json msg ∷ messages_json messages rest
]

-- Unlike the query protocol's handler, this one leaves messages at their receive limit in the queue.
unfoldable pub receive : ℕ → Counters → SqsStore → Params → Reply
unfolding get_queue_by_name
receive now counters store params = elim (get "QueueUrl" params) [
  | none ↦ missing "QueueUrl" counters store
  | some url ↦
      let name = queue_name_from_url url in
      elim (get_queue_by_name name store) [
        | none ↦ no_queue counters store
        | some q ↦
            let received =
              receive_messages counters.message_ids (max_messages params)
                (number_param u32 "VisibilityTimeout" params) now q in
            answered
              (object (("Messages", array (messages_json received.messages received.indices)) ∷ []))
              (record counters { message_ids = received.counter })
              (write_queue name (record q { messages = received.messages }) store)
      ]
]

unfoldable pub delete : Counters → SqsStore → Params → Reply
unfolding delete_queue
delete counters store params = elim (get "QueueUrl" params) [
  | none ↦ missing "QueueUrl" counters store
  | some url ↦
      let (store', found) = delete_queue (queue_name_from_url url) store in
      if found then answered (object []) counters store' else no_queue counters store'
]
