-- ===== src/Sqs/Queue/Spec.antt =====
-- What a receive promises, stated over the messages alone.
use openstack.Prelude.{
  ℕ, true, false, ◌≡◌, ◌+◌, ◌<◌, String, List, [], ◌∷◌, if◌then◌else◌, Dict, All, arith,
}
use openstack.Sqs.Message.{SqsMessage, MessageAttributeValue, is_visible_at}

-- The positions, counted from `idx`, of the messages that are visible at `now`.
unfoldable pub visible_indices : ℕ → ℕ → List SqsMessage → List ℕ
visible_indices now idx [] = []
visible_indices now idx (m ∷ ms) =
    if is_visible_at now m
    then idx ∷ visible_indices now (idx + 1) ms
    else visible_indices now (idx + 1) ms

-- What a receive leaves alone in a message.
pub record Payload : Type 0 where
  pub message_id : String
  pub body : String
  pub md5_of_body : String
  pub message_attributes : Dict MessageAttributeValue
  pub sent_at : ℕ
  pub sequence_number : ℕ

abbrev pub payload : SqsMessage → Payload
payload m = record {
  message_id = m.message_id;
  body = m.body;
  md5_of_body = m.md5_of_body;
  message_attributes = m.message_attributes;
  sent_at = m.sent_at;
  sequence_number = m.sequence_number;
}

pub visible_indices-ge :
    (i now idx : ℕ) (ms : List SqsMessage) → i < idx → All (λ j. i < j) (visible_indices now idx ms)
unfolding visible_indices
visible_indices-ge i now idx [] h = tt
visible_indices-ge i now idx (m ∷ ms) h = ground (arith, visible_indices-ge i now (idx + 1) ms)

pub visible_indices-shown :
    (now idx : ℕ) (m : SqsMessage) (ms : List SqsMessage)
    → is_visible_at now m ≡ true
    → visible_indices now idx (m ∷ ms) ≡ idx ∷ visible_indices now (idx + 1) ms
unfolding visible_indices
visible_indices-shown now idx m ms h = rw h

pub visible_indices-hidden :
    (now idx : ℕ) (m : SqsMessage) (ms : List SqsMessage)
    → is_visible_at now m ≡ false
    → visible_indices now idx (m ∷ ms) ≡ visible_indices now (idx + 1) ms
unfolding visible_indices
visible_indices-hidden now idx m ms h = rw h
