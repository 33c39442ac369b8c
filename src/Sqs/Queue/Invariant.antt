-- ===== src/Sqs/Queue/Invariant.antt =====
-- The invariant of a queue under every operation, in any order.
use openstack.Prelude.{
  ℕ, ◌+◌, ◌≤◌, ◌<◌, ◌≡◌, refl, ap, ◌∙◌, sym, String, Option, List, [], ◌∷◌, map, length, All,
  Pairwise, arith, unwrap_or, All-map-retain, Pairwise-map-retain,
}
use openstack.Sqs.Ids.{u64}
use openstack.Sqs.Message.{SqsMessage}
use openstack.Sqs.Queue.{SqsQueue, new, receive_messages, delete_message, change_visibility}
use openstack.Sqs.Queue.Spec.{payload}
use openstack.Sqs.Queue.Receive.{receive_messages-eq-receive_loop, receive_messages-payload}
use openstack.Sqs.Queue.Handles.{handles, IsHandled, IsIssued, receive_loop-IsHandled}
use openstack.Sqs.Queue.Change.{
  lacks, changed, delete_message-eq-retain, change_visibility-eq-map, map-map-changed,
}

abbrev pub sequence_numbers : List SqsMessage → List ℕ
sequence_numbers ms = map (λ m. m.sequence_number) ms

-- With the counter at `c`: the receipt handles are issued and distinct, and the sequence numbers
-- ascend from front to back, none past the queue's counter.
pub record IsWellFormed (c : ℕ) (q : SqsQueue) : Type 0 where
  pub handled : IsHandled c q.messages
  pub ascending : Pairwise (λ a b. a < b) (sequence_numbers q.messages)
  pub bounded : All (λ n. n ≤ q.sequence_counter) (sequence_numbers q.messages)

pub new-IsWellFormed :
    (c now : ℕ) (name base account region : String)
    → IsWellFormed c (new now name base account region)
unfolding new
new-IsWellFormed c now name base account region = record {
  handled = record { issued = tt; distinct = tt };
  ascending = tt;
  bounded = tt;
}

-- What keeps the messages' payloads keeps their sequence numbers.
sequence_numbers-payload :
    (ms : List SqsMessage) → sequence_numbers ms ≡ map (λ p. p.sequence_number) (map payload ms)
sequence_numbers-payload [] = refl
sequence_numbers-payload (m ∷ ms) = ap (λ l. m.sequence_number ∷ l) (sequence_numbers-payload ms)

receive_messages-sequence :
    (c n : ℕ) (timeout : Option ℕ) (now : ℕ) (q : SqsQueue)
    → sequence_numbers (receive_messages c n timeout now q).messages ≡ sequence_numbers q.messages
receive_messages-sequence c n timeout now q =
    sequence_numbers-payload _
    ∙ ap (λ l. map (λ p. p.sequence_number) l) (receive_messages-payload c n timeout now q)
    ∙ sym (sequence_numbers-payload q.messages)

-- The queue that a receive leaves.
abbrev pub received : ℕ → ℕ → Option ℕ → ℕ → SqsQueue → SqsQueue
received c n timeout now q = record q { messages = (receive_messages c n timeout now q).messages }

-- A receive keeps the invariant, if the counter has room for a value for each message.
pub receive_messages-IsWellFormed :
    (c n : ℕ) (timeout : Option ℕ) (now : ℕ) (q : SqsQueue)
    → c + length q.messages < u64
    → IsWellFormed c q
    → IsWellFormed (receive_messages c n timeout now q).counter (received c n timeout now q)
receive_messages-IsWellFormed c n timeout now q room w = record {
  handled = rw receive_messages-eq-receive_loop (
      receive_loop-IsHandled n (unwrap_or timeout q.visibility_timeout) now 0 c q.messages room
        w.handled);
  ascending = rw receive_messages-sequence w.ascending;
  bounded = rw receive_messages-sequence w.bounded;
}

-- A delete keeps the invariant.
pub delete_message-IsWellFormed :
    (c : ℕ) (h : String) (q : SqsQueue) → IsWellFormed c q → IsWellFormed c (delete_message h q).0
delete_message-IsWellFormed c h q w = rw (delete_message-eq-retain h q w.handled.distinct) (record {
  handled = record {
    issued = All-map-retain (IsIssued c) _ (lacks h) q.messages w.handled.issued;
    distinct = Pairwise-map-retain _ _ (lacks h) q.messages w.handled.distinct;
  };
  ascending = Pairwise-map-retain _ _ (lacks h) q.messages w.ascending;
  bounded = All-map-retain _ _ (lacks h) q.messages w.bounded;
})

changed-fields :
    (h : String) (vt now : ℕ) (m : SqsMessage)
    → ((changed h vt now m).receipt_handle ≡ m.receipt_handle)
      × ((changed h vt now m).sequence_number ≡ m.sequence_number)
changed-fields h vt now m = ground arith

-- A change of the visibility keeps the invariant.
pub change_visibility-IsWellFormed :
    (c : ℕ) (h : String) (vt now : ℕ) (q : SqsQueue)
    → IsWellFormed c q
    → IsWellFormed c (change_visibility h vt now q).0
change_visibility-IsWellFormed c h vt now q w =
    rw (change_visibility-eq-map h vt now q w.handled.distinct) (record {
      handled = record {
        issued = rw same_handles w.handled.issued;
        distinct = rw same_handles w.handled.distinct;
      };
      ascending = rw same_numbers w.ascending;
      bounded = rw same_numbers w.bounded;
    })
  where
    same_handles : handles (map (changed h vt now) q.messages) ≡ handles q.messages
    same_handles = map-map-changed _ h vt now q.messages (λ m. (changed-fields h vt now m).0)

    same_numbers :
        sequence_numbers (map (changed h vt now) q.messages) ≡ sequence_numbers q.messages
    same_numbers = map-map-changed _ h vt now q.messages (λ m. (changed-fields h vt now m).1)
