-- ===== src/Sqs/Queue.antt =====
-- crates/services/sqs/src/store.rs, lines 165 to 391: a queue and its operations. What a `&mut self`
-- method changes comes back in its result, with the value of the message counter.
pub mod Spec
pub mod Receive
pub mod Handles
pub mod Change
pub mod Send
pub mod Invariant
pub mod Redrive
pub mod History
use openstack.Prelude.{
  ℕ, suc, zero, ◌+◌, ◌%◌, String, ◌++◌, Bool, true, false, not, ◌&&◌, ◌||◌, is_nil, Option, none,
  some, List, [], ◌∷◌, ltb, leb, eqb, ◌==◌, if◌then◌else◌, unwrap_or, Dict, insert, contains_key,
  get, length, count_if, retain,
}
use openstack.Prelude.Text.{has_suffix}
use openstack.Sqs.Ids.{u64, fetch_add}
use openstack.Sqs.Message
use openstack.Sqs.Message.{
  u32, MessageAttributeValue, SqsMessage, SendMessageResult, seconds, is_visible_at, begin_receive,
}

pub record RedrivePolicy : Type 0 where
  pub dead_letter_target_arn : String
  pub max_receive_count : ℕ

pub record SqsQueue : Type 0 where
  pub name : String
  pub url : String
  pub arn : String
  pub created : ℕ
  pub last_modified : ℕ
  pub visibility_timeout : ℕ
  pub message_retention_period : ℕ
  pub maximum_message_size : ℕ
  pub delay_seconds : ℕ
  pub receive_message_wait_time_seconds : ℕ
  pub fifo : Bool
  pub content_based_deduplication : Bool
  pub redrive_policy : Option RedrivePolicy
  pub policy : Option String
  pub messages : List SqsMessage
  pub sequence_counter : ℕ
  pub dedup_ids : Dict String

-- `SqsQueue::new` at the time `now`.
unfoldable pub new : ℕ → String → String → String → String → SqsQueue
unfolding has_suffix
new now name base_url account_id region = record {
  name = name;
  url = base_url ++ ("/" ++ (account_id ++ ("/" ++ name)));
  arn = "arn:aws:sqs:" ++ (region ++ (":" ++ (account_id ++ (":" ++ name))));
  created = now;
  last_modified = now;
  visibility_timeout = 30;
  message_retention_period = 345600;
  maximum_message_size = 262144;
  delay_seconds = 0;
  receive_message_wait_time_seconds = 0;
  fifo = has_suffix ".fifo" name;
  content_based_deduplication = false;
  redrive_policy = none;
  policy = none;
  messages = [];
  sequence_counter = 0;
  dedup_ids = [];
}

-- `push_back`.
unfoldable pub push_back : List SqsMessage → SqsMessage → List SqsMessage
push_back [] m = m ∷ []
push_back (x ∷ xs) m = x ∷ push_back xs m

-- What `send_message` leaves: the queue, the counter, and `none` for a duplicate.
pub record Sent : Type 0 where
  pub queue : SqsQueue
  pub counter : ℕ
  pub result : Option SendMessageResult

-- The test for a duplicate on a FIFO queue.
unfoldable pub is_duplicate : SqsQueue → Option String → Bool
unfolding get
is_duplicate q none = false
is_duplicate q (some did) = q.fifo && contains_key did q.dedup_ids

abbrev pub remember : Option String → String → Dict String → Dict String
remember none message_id ids = ids
remember (some did) message_id ids = insert did message_id ids

unfoldable pub send_message :
    (String → String)
    → ℕ
    → ℕ
    → SqsQueue
    → String
    → Option ℕ
    → Dict MessageAttributeValue
    → Option String
    → Option String
    → Sent
unfolding is_duplicate Message.new push_back insert
send_message md5_hex counter now q body delay_override message_attributes message_group_id
      dedup_id =
    let delay = unwrap_or delay_override q.delay_seconds in
    let seq = (q.sequence_counter + 1) % u64 in
    let (msg, counter') =
      Message.new md5_hex counter now body delay message_attributes message_group_id dedup_id seq in
    if is_duplicate q dedup_id
    then record { queue = q; counter = counter; result = none }
    else record {
      queue = record q {
        sequence_counter = seq;
        dedup_ids = remember dedup_id msg.message_id q.dedup_ids;
        messages = push_back q.messages msg;
      };
      counter = counter';
      result = some (record {
        message_id = msg.message_id;
        md5_of_body = msg.md5_of_body;
        sequence_number = msg.sequence_number;
      });
    }

-- What a receive loop leaves: the messages, the counter and the indices received.
pub record Received : Type 0 where
  pub messages : List SqsMessage
  pub counter : ℕ
  pub indices : List ℕ

-- The head of the rest was passed over, or received.
abbrev pub pass_over : SqsMessage → Received → Received
pass_over m r = record r { messages = m ∷ r.messages }

abbrev pub receive_at : ℕ → SqsMessage → Received → Received
receive_at idx m r = record r { messages = m ∷ r.messages; indices = idx ∷ r.indices }

-- The loop for one message: it returns at the first visible one.
unfoldable pub receive_first : ℕ → ℕ → ℕ → ℕ → List SqsMessage → Received
receive_first vt now idx counter [] = record { messages = []; counter = counter; indices = [] }
receive_first vt now idx counter (m ∷ ms) =
    let rest = receive_first vt now (idx + 1) counter ms in
    if is_visible_at now m
    then record {
      messages = begin_receive vt now counter m ∷ ms;
      counter = fetch_add counter;
      indices = idx ∷ [];
    }
    else pass_over m rest

-- The loop for `left` more messages: it breaks when none is left to take.
unfoldable pub receive_loop : ℕ → ℕ → ℕ → ℕ → ℕ → List SqsMessage → Received
receive_loop left vt now idx counter [] = record { messages = []; counter = counter; indices = [] }
receive_loop zero vt now idx counter (m ∷ ms) = record {
  messages = m ∷ ms;
  counter = counter;
  indices = [];
}
receive_loop (suc left) vt now idx counter (m ∷ ms) =
    let taken =
      receive_at idx (begin_receive vt now counter m)
        (receive_loop left vt now (idx + 1) (fetch_add counter) ms) in
    let passed = pass_over m (receive_loop (suc left) vt now (idx + 1) counter ms) in
    if is_visible_at now m then taken else passed

-- `receive_messages`: the early return, the loop for one message, and the general loop. The model is
-- for numbers for which `Vec::with_capacity` has the room; the handlers ask for at most ten.
unfoldable pub receive_messages : ℕ → ℕ → Option ℕ → ℕ → SqsQueue → Received
unfolding receive_first receive_loop
receive_messages counter max_number visibility_timeout now q =
    let vt = unwrap_or visibility_timeout q.visibility_timeout in
    if eqb max_number 0 || is_nil q.messages
    then record { messages = q.messages; counter = counter; indices = [] }
    else if eqb max_number 1
    then receive_first vt now 0 counter q.messages
    else receive_loop max_number vt now 0 counter q.messages

-- `VecDeque::remove` of the first message with the handle, and whether there was one.
unfoldable pub delete_from : String → List SqsMessage → List SqsMessage × Bool
delete_from handle [] = ([], false)
delete_from handle (m ∷ ms) =
    let (rest, found) = delete_from handle ms in
    if m.receipt_handle == handle then (ms, true) else (m ∷ rest, found)

unfoldable pub delete_message : String → SqsQueue → SqsQueue × Bool
unfolding delete_from
delete_message handle q =
    let (rest, found) = delete_from handle q.messages in (record q { messages = rest }, found)

unfoldable pub change_in : String → ℕ → ℕ → List SqsMessage → List SqsMessage × Bool
change_in handle vt now [] = ([], false)
change_in handle vt now (m ∷ ms) =
    let (rest, found) = change_in handle vt now ms in
    if m.receipt_handle == handle
    then (
      record m { visible_after = if eqb vt 0 then none else some (now + seconds vt) } ∷ ms,
      true,
    )
    else (m ∷ rest, found)

unfoldable pub change_visibility : String → ℕ → ℕ → SqsQueue → SqsQueue × Bool
unfolding change_in
change_visibility handle vt now q =
    let (rest, found) = change_in handle vt now q.messages in (record q { messages = rest }, found)

unfoldable pub purge : SqsQueue → SqsQueue
purge q = record q { messages = [] }

unfoldable pub approximate_number_of_messages : ℕ → SqsQueue → ℕ
approximate_number_of_messages now q = count_if (λ m. is_visible_at now m) q.messages

unfoldable pub approximate_number_of_messages_not_visible : ℕ → SqsQueue → ℕ
approximate_number_of_messages_not_visible now q =
    count_if (λ m. not (is_visible_at now m)) q.messages

unfoldable pub messages_for_dlq : SqsQueue → List SqsMessage
messages_for_dlq q = elim q.redrive_policy [
  | none ↦ []
  | some rp ↦ retain (λ m. leb rp.max_receive_count m.receive_count) q.messages
]

unfoldable pub remove_dlq_candidates : SqsQueue → SqsQueue
remove_dlq_candidates q = elim q.redrive_policy [
  | none ↦ q
  | some rp ↦ record q {
    messages = retain (λ m. ltb m.receive_count rp.max_receive_count) q.messages;
  }
]
