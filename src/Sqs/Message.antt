-- ===== src/Sqs/Message.antt =====
-- crates/services/sqs/src/store.rs, lines 36 to 163: a message, its visibility and its receipt. Times are
-- nanoseconds; `u32` counts wrap round as in a release build.
use openstack.Prelude.{
  ℕ, ◌+◌, ◌*◌, ◌/◌, ◌%◌, ◌^◌, String, Bool, true, Option, none, some, List, [], ltb, leb,
  if◌then◌else◌, Dict, insert,
}
use openstack.Prelude.Format.{to_string}
use openstack.Sqs.Ids.{next_message_id, next_receipt_handle, receipt_handle_of}

abbrev pub u32 : ℕ
u32 = 2 ^ 32

-- `chrono::Duration::seconds`.
abbrev pub seconds : ℕ → ℕ
seconds n = n * 1000000000

-- `DateTime::timestamp_millis`.
abbrev pub timestamp_millis : ℕ → ℕ
timestamp_millis t = t / 1000000

pub record MessageAttributeValue : Type 0 where
  pub data_type : String
  pub string_value : Option String
  pub binary_value : Option (List ℕ)

pub record SqsMessage : Type 0 where
  pub message_id : String
  pub receipt_handle : String
  pub body : String
  pub md5_of_body : String
  pub attributes : Dict String
  pub message_attributes : Dict MessageAttributeValue
  pub sent_at : ℕ
  pub visible_after : Option ℕ
  pub receive_count : ℕ
  pub delay_seconds : ℕ
  pub message_group_id : Option String
  pub message_deduplication_id : Option String
  pub sequence_number : ℕ

pub record SendMessageResult : Type 0 where
  pub message_id : String
  pub md5_of_body : String
  pub sequence_number : ℕ

-- The three system attributes of a message sent at `now`.
unfoldable pub initial_attributes : ℕ → Dict String
unfolding to_string insert
initial_attributes now =
    insert "SentTimestamp" (to_string (timestamp_millis now))
      (insert "ApproximateReceiveCount" "0" (insert "ApproximateFirstReceiveTimestamp" "0" []))

-- When a message that waits `secs` seconds from `now` is visible; no wait is `none`.
unfoldable pub visible_from : ℕ → ℕ → Option ℕ
visible_from now secs = if ltb 0 secs then some (now + seconds secs) else none

-- `SqsMessage::new`; `md5_hex` is the digest of the `md5` crate in hexadecimal. The counter moves
-- on by two: one value for the id and one for the receipt handle.
unfoldable pub new :
    (String → String)
    → ℕ
    → ℕ
    → String
    → ℕ
    → Dict MessageAttributeValue
    → Option String
    → Option String
    → ℕ
    → SqsMessage × ℕ
unfolding next_message_id next_receipt_handle initial_attributes visible_from
new md5_hex counter now body delay_seconds message_attributes message_group_id dedup_id
      sequence_number =
    let (id, counter') = next_message_id counter in
    let (handle, counter'') = next_receipt_handle counter' in
    (
      record {
        message_id = id;
        receipt_handle = handle;
        body = body;
        md5_of_body = md5_hex body;
        attributes = initial_attributes now;
        message_attributes = message_attributes;
        sent_at = now;
        visible_after = visible_from now delay_seconds;
        receive_count = 0;
        delay_seconds = delay_seconds;
        message_group_id = message_group_id;
        message_deduplication_id = dedup_id;
        sequence_number = sequence_number;
      },
      counter'',
    )

-- `is_visible_at`, the time first.
unfoldable pub is_visible_at : ℕ → SqsMessage → Bool
is_visible_at now m = elim m.visible_after [ none ↦ true | some t ↦ leb t now ]

-- `begin_receive` with the value `next` of the counter. The attribute is written in place if it is
-- there and added if not.
unfoldable pub begin_receive : ℕ → ℕ → ℕ → SqsMessage → SqsMessage
unfolding receipt_handle_of visible_from
begin_receive visibility_timeout_secs now next m =
    let count = (m.receive_count + 1) % u32 in
    record m {
      receipt_handle = receipt_handle_of next;
      receive_count = count;
      attributes = insert "ApproximateReceiveCount" (to_string count) m.attributes;
      visible_after = visible_from now visibility_timeout_secs;
    }
