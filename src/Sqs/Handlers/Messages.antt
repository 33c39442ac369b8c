-- ===== src/Sqs/Handlers/Messages.antt =====
-- The handlers of single messages.
use openstack.Prelude.{
  ℕ, String, ◌++◌, Option, none, some, List, [], ◌∷◌, Dict, get, any, unwrap_or, leb, if◌then◌else◌,
  get_elem?,
}
use openstack.Prelude.Format.{to_string, parse_uint}
use openstack.Sqs.Ids.{u64}
use openstack.Sqs.Message.{u32, SqsMessage, MessageAttributeValue, SendMessageResult}
use openstack.Sqs.Params.{Params, extract_message_attributes, queue_name_from_url}
use openstack.Sqs.Queue.{
  SqsQueue, send_message, receive_messages, delete_message, change_visibility,
  remove_dlq_candidates,
}
use openstack.Sqs.Store.{SqsStore, get_queue_by_name, write_queue}
use openstack.Sqs.Xml.{escape_xml, push_xml_escaped}
use openstack.Sqs.Handlers.Reply.{Counters, Reply, wrapped, no_result, missing, no_queue}

-- `params.get(key).and_then(|v| v.parse().ok())` for an unsigned type.
abbrev pub number_param : ℕ → String → Params → Option ℕ
number_param bound key params = elim (get key params) [ none ↦ none | some v ↦ parse_uint bound v ]

abbrev pub sent_xml : Option SendMessageResult → String
sent_xml none =
    "<MessageId>duplicate</MessageId><MD5OfMessageBody></MD5OfMessageBody><SequenceNumber>0</SequenceNumber>"
sent_xml (some msg) =
    "<MessageId>"
    ++ escape_xml msg.message_id
    ++ "</MessageId>"
    ++ "<MD5OfMessageBody>"
    ++ escape_xml msg.md5_of_body
    ++ "</MD5OfMessageBody>"
    ++ "<SequenceNumber>"
    ++ to_string msg.sequence_number
    ++ "</SequenceNumber>"

unfoldable pub handle_send_message : (String → String) → ℕ → Counters → SqsStore → Params → Reply
unfolding get_queue_by_name
handle_send_message md5_hex now counters store params = elim (get "QueueUrl" params) [
  | none ↦ missing "QueueUrl" counters store
  | some url ↦ elim (get "MessageBody" params) [
    | none ↦ missing "MessageBody" counters store
    | some body ↦
        let name = queue_name_from_url url in
        elim (get_queue_by_name name store) [
          | none ↦ no_queue counters store
          | some q ↦
              let sent =
                send_message md5_hex counters.message_ids now q body
                  (number_param u32 "DelaySeconds" params) (extract_message_attributes params)
                  (get "MessageGroupId" params) (get "MessageDeduplicationId" params) in
              wrapped "SendMessage" (sent_xml sent.result)
                (record counters { message_ids = sent.counter }) (write_queue name sent.queue store)
        ]
  ]
]

abbrev pub attributes_xml : Dict String → String
attributes_xml [] = ""
attributes_xml ((k, v) ∷ rest) =
    push_xml_escaped (push_xml_escaped "<Attribute><Name>" k ++ "</Name><Value>") v
    ++ "</Value></Attribute>"
    ++ attributes_xml rest

abbrev pub message_attributes_xml : Dict MessageAttributeValue → String
message_attributes_xml [] = ""
message_attributes_xml ((k, v) ∷ rest) =
    push_xml_escaped
      (push_xml_escaped
          (push_xml_escaped "<MessageAttribute><Name>" k ++ "</Name><Value><DataType>") v.data_type
        ++ "</DataType><StringValue>")
      (unwrap_or v.string_value "")
    ++ "</StringValue></Value></MessageAttribute>"
    ++ message_attributes_xml rest

abbrev pub message_xml : SqsMessage → String
message_xml msg =
    push_xml_escaped
      ("<Message><MessageId>" ++ msg.message_id ++ "</MessageId><ReceiptHandle>"
        ++ msg.receipt_handle ++ "</ReceiptHandle><MD5OfBody>" ++ msg.md5_of_body
        ++ "</MD5OfBody><Body>")
      msg.body
    ++ "</Body>"
    ++ attributes_xml msg.attributes
    ++ message_attributes_xml msg.message_attributes
    ++ "</Message>"

-- The messages at the indices received; an index with no message is passed over.
unfoldable pub messages_xml : List SqsMessage → List ℕ → String
unfolding push_xml_escaped
messages_xml messages [] = ""
messages_xml messages (idx ∷ rest) = elim (get_elem? messages idx) [
  | none ↦ messages_xml messages rest
  | some msg ↦ message_xml msg ++ messages_xml messages rest
]

-- At most ten; a missing or bad number is one.
unfoldable pub max_messages : Params → ℕ
unfolding get parse_uint
max_messages params =
    let n = unwrap_or (number_param u64 "MaxNumberOfMessages" params) 1 in
    if leb n 10 then n else 10

-- After the response is built: messages at their receive limit leave the queue.
unfoldable pub drop_candidates : SqsQueue → SqsQueue
unfolding remove_dlq_candidates
drop_candidates q = elim q.redrive_policy [
  | none ↦ q
  | some rp ↦
      if any (λ m. leb rp.max_receive_count m.receive_count) q.messages
      then remove_dlq_candidates q
      else q
]

unfoldable pub handle_receive_message : ℕ → Counters → SqsStore → Params → Reply
unfolding get_queue_by_name max_messages
handle_receive_message now counters store params = elim (get "QueueUrl" params) [
  | none ↦ missing "QueueUrl" counters store
  | some url ↦
      let name = queue_name_from_url url in
      elim (get_queue_by_name name store) [
        | none ↦ no_queue counters store
        | some q ↦
            let received =
              receive_messages counters.message_ids (max_messages params)
                (number_param u32 "VisibilityTimeout" params) now q in
            wrapped "ReceiveMessage" (messages_xml received.messages received.indices)
              (record counters { message_ids = received.counter })
              (write_queue name (drop_candidates (record q { messages = received.messages })) store)
      ]
]

-- A queue that does not exist is no error here.
abbrev pub update_queue : String → (SqsQueue → SqsQueue) → SqsStore → SqsStore
update_queue name f store = elim (get_queue_by_name name store) [
  | none ↦ store
  | some q ↦ write_queue name (f q) store
]

unfoldable pub handle_delete_message : Counters → SqsStore → Params → Reply
unfolding get_queue_by_name
handle_delete_message counters store params = elim (get "QueueUrl" params) [
  | none ↦ missing "QueueUrl" counters store
  | some url ↦ elim (get "ReceiptHandle" params) [
    | none ↦ missing "ReceiptHandle" counters store
    | some rh ↦
        no_result "DeleteMessage" counters
          (update_queue (queue_name_from_url url) (λ q. (delete_message rh q).0) store)
  ]
]

unfoldable pub handle_change_message_visibility : ℕ → Counters → SqsStore → Params → Reply
unfolding get_queue_by_name
handle_change_message_visibility now counters store params = elim (get "QueueUrl" params) [
  | none ↦ missing "QueueUrl" counters store
  | some url ↦ elim (get "ReceiptHandle" params) [
    | none ↦ missing "ReceiptHandle" counters store
    | some rh ↦
        let vt = unwrap_or (number_param u32 "VisibilityTimeout" params) 30 in
        no_result "ChangeMessageVisibility" counters
          (update_queue (queue_name_from_url url) (λ q. (change_visibility rh vt now q).0) store)
  ]
]
