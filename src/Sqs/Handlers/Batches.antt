-- ===== src/Sqs/Handlers/Batches.antt =====
-- The handlers of batches: a loop over the numbered entries of the request.
use openstack.Prelude.{ℕ, String, ◌++◌, Option, none, some, List, [], ◌∷◌, get, unwrap_or}
use openstack.Prelude.Format.{parse_uint}
use openstack.Sqs.Message.{u32, SendMessageResult}
use openstack.Sqs.Params.{Params, indexed_key, all_entries, both, queue_name_from_url}
use openstack.Sqs.Queue.{send_message, delete_message, change_visibility}
use openstack.Sqs.Store.{SqsStore, get_queue_by_name, write_queue}
use openstack.Sqs.Xml.{escape_xml}
use openstack.Sqs.Handlers.Reply.{Counters, Reply, wrapped, missing}
use openstack.Sqs.Handlers.Messages.{number_param, update_queue}

pub record SendEntry : Type 0 where
  pub id : String
  pub body : String
  pub delay : Option ℕ
  pub group_id : Option String
  pub dedup_id : Option String

abbrev pub send_prefix : String
send_prefix = "SendMessageBatchRequestEntry"

unfoldable pub send_entry_at : Params → ℕ → Option SendEntry
unfolding indexed_key get parse_uint
send_entry_at params i =
    elim (both (get (indexed_key send_prefix i ".Id") params)
      (get (indexed_key send_prefix i ".MessageBody") params)) [
        | none ↦ none
        | some (id, body) ↦ some (record {
          id = id;
          body = body;
          delay = number_param u32 (indexed_key send_prefix i ".DelaySeconds") params;
          group_id = get (indexed_key send_prefix i ".MessageGroupId") params;
          dedup_id = get (indexed_key send_prefix i ".MessageDeduplicationId") params;
        })
      ]

abbrev pub sent_entry_xml : String → Option SendMessageResult → String
sent_entry_xml id none =
    "<SendMessageBatchResultEntry>"
    ++ "<Id>"
    ++ escape_xml id
    ++ "</Id><MessageId>dup</MessageId><MD5OfMessageBody></MD5OfMessageBody>"
    ++ "</SendMessageBatchResultEntry>"
sent_entry_xml id (some msg) =
    "<SendMessageBatchResultEntry>"
    ++ "<Id>"
    ++ escape_xml id
    ++ "</Id>"
    ++ "<MessageId>"
    ++ escape_xml msg.message_id
    ++ "</MessageId>"
    ++ "<MD5OfMessageBody>"
    ++ escape_xml msg.md5_of_body
    ++ "</MD5OfMessageBody>"
    ++ "</SendMessageBatchResultEntry>"

-- What the loop carries: the message counter, the store and the text so far.
pub record BatchState : Type 0 where
  pub message_ids : ℕ
  pub store : SqsStore
  pub successful : String

-- The loop ends at the first entry for which there is no queue.
unfoldable pub send_batch :
    (String → String) → ℕ → String → BatchState → List SendEntry → BatchState
unfolding get_queue_by_name
send_batch md5_hex now name s [] = s
send_batch md5_hex now name s (entry ∷ rest) = elim (get_queue_by_name name s.store) [
  | none ↦ s
  | some q ↦
      let sent =
        send_message md5_hex s.message_ids now q entry.body entry.delay [] entry.group_id
          entry.dedup_id in
      send_batch md5_hex now name
        (record {
          message_ids = sent.counter;
          store = write_queue name sent.queue s.store;
          successful = s.successful ++ sent_entry_xml entry.id sent.result;
        })
        rest
]

unfoldable pub handle_send_message_batch :
    (String → String) → ℕ → Counters → SqsStore → Params → Reply
unfolding all_entries send_entry_at send_batch
handle_send_message_batch md5_hex now counters store params = elim (get "QueueUrl" params) [
  | none ↦ missing "QueueUrl" counters store
  | some url ↦
      let done =
        send_batch md5_hex now (queue_name_from_url url)
          (record { message_ids = counters.message_ids; store = store; successful = "" })
          (all_entries params (send_entry_at params)) in
      wrapped "SendMessageBatch" done.successful
        (record counters { message_ids = done.message_ids }) done.store
]

abbrev pub delete_prefix : String
delete_prefix = "DeleteMessageBatchRequestEntry"

unfoldable pub delete_entry_at : Params → ℕ → Option (String × String)
unfolding indexed_key get
delete_entry_at params i =
    both (get (indexed_key delete_prefix i ".Id") params)
      (get (indexed_key delete_prefix i ".ReceiptHandle") params)

unfoldable pub delete_batch : String → SqsStore → List (String × String) → SqsStore
unfolding get_queue_by_name
delete_batch name store [] = store
delete_batch name store ((id, rh) ∷ rest) =
    delete_batch name (update_queue name (λ q. (delete_message rh q).0) store) rest

abbrev pub deleted_xml : List (String × String) → String
deleted_xml [] = ""
deleted_xml ((id, rh) ∷ rest) =
    "<DeleteMessageBatchResultEntry><Id>"
    ++ escape_xml id
    ++ "</Id></DeleteMessageBatchResultEntry>"
    ++ deleted_xml rest

unfoldable pub handle_delete_message_batch : Counters → SqsStore → Params → Reply
unfolding all_entries delete_entry_at delete_batch
handle_delete_message_batch counters store params = elim (get "QueueUrl" params) [
  | none ↦ missing "QueueUrl" counters store
  | some url ↦
      let found = all_entries params (delete_entry_at params) in
      wrapped "DeleteMessageBatch" (deleted_xml found) counters
        (delete_batch (queue_name_from_url url) store found)
]

abbrev pub change_prefix : String
change_prefix = "ChangeMessageVisibilityBatchRequestEntry"

pub record ChangeEntry : Type 0 where
  pub id : String
  pub receipt_handle : String
  pub visibility_timeout : ℕ

unfoldable pub change_entry_at : Params → ℕ → Option ChangeEntry
unfolding indexed_key get parse_uint
change_entry_at params i =
    elim (both (get (indexed_key change_prefix i ".Id") params)
      (get (indexed_key change_prefix i ".ReceiptHandle") params)) [
        | none ↦ none
        | some (id, rh) ↦ some (record {
          id = id;
          receipt_handle = rh;
          visibility_timeout =
              unwrap_or (number_param u32 (indexed_key change_prefix i ".VisibilityTimeout") params)
                30;
        })
      ]

unfoldable pub change_batch : ℕ → String → SqsStore → List ChangeEntry → SqsStore
unfolding get_queue_by_name
change_batch now name store [] = store
change_batch now name store (e ∷ rest) =
    change_batch now name
      (update_queue name (λ q. (change_visibility e.receipt_handle e.visibility_timeout now q).0)
        store)
      rest

abbrev pub changed_xml : List ChangeEntry → String
changed_xml [] = ""
changed_xml (e ∷ rest) =
    "<ChangeMessageVisibilityBatchResultEntry><Id>"
    ++ escape_xml e.id
    ++ "</Id></ChangeMessageVisibilityBatchResultEntry>"
    ++ changed_xml rest

unfoldable pub handle_change_message_visibility_batch : ℕ → Counters → SqsStore → Params → Reply
unfolding all_entries change_entry_at change_batch
handle_change_message_visibility_batch now counters store params = elim (get "QueueUrl" params) [
  | none ↦ missing "QueueUrl" counters store
  | some url ↦
      let found = all_entries params (change_entry_at params) in
      wrapped "ChangeMessageVisibilityBatch" (changed_xml found) counters
        (change_batch now (queue_name_from_url url) store found)
]
