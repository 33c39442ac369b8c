-- ===== src/Sqs/Queue/Send.antt =====
-- `send_message`: duplicates on a FIFO queue, and what an accepted message adds.
use openstack.Prelude.{
  ℕ, ◌+◌, ◌%◌, ◌<◌, ◌≡◌, refl, ap, ◌∙◌, String, true, false, Option, none, some, List, [], ◌∷◌, ◌↔◌,
  Option-cases, inl, inr, Bool-cases, All, All-map, Pairwise, arith, unwrap_or, Dict, get,
  get-insert, eq_refl,
}
use openstack.Sqs.Ids.{u64, fetch_add, receipt_handle_of}
use openstack.Sqs.Message
use openstack.Sqs.Message.{SqsMessage, MessageAttributeValue, SendMessageResult}
use openstack.Sqs.Queue.{SqsQueue, Sent, push_back, is_duplicate, remember, send_message}
use openstack.Sqs.Queue.Handles.{fetch_add-eq, push_back-IsHandled}
use openstack.Sqs.Queue.Invariant.{IsWellFormed, sequence_numbers}

push_back-sequence-All :
    (P : ℕ → Type 0) (ms : List SqsMessage) (m : SqsMessage)
    → All P (sequence_numbers ms)
    → P m.sequence_number
    → All P (sequence_numbers (push_back ms m))
unfolding push_back
push_back-sequence-All P [] m a p = (p, tt)
push_back-sequence-All P (x ∷ xs) m (a, as') p = (a, push_back-sequence-All P xs m as' p)

push_back-ascending :
    (ms : List SqsMessage) (m : SqsMessage)
    → Pairwise (λ a b. a < b) (sequence_numbers ms)
    → All (λ n. n < m.sequence_number) (sequence_numbers ms)
    → Pairwise (λ a b. a < b) (sequence_numbers (push_back ms m))
unfolding push_back
push_back-ascending [] m p a = (tt, tt)
push_back-ascending (x ∷ xs) m (p, ps) (a, as') =
    (push_back-sequence-All (λ n. x.sequence_number < n) xs m p a, push_back-ascending xs m ps as')

module _ (md5_hex : String → String) (c now : ℕ) (q : SqsQueue) (body : String) (delay : Option ℕ)
    (attrs : Dict MessageAttributeValue) (group dedup : Option String) where
  abbrev pub sent : Sent
  sent = send_message md5_hex c now q body delay attrs group dedup

  -- The message that is queued if it is no duplicate.
  abbrev pub new_message : SqsMessage
  new_message =
      (Message.new md5_hex c now body (unwrap_or delay q.delay_seconds) attrs group dedup
        ((q.sequence_counter + 1) % u64)).0

  sent-duplicate :
      is_duplicate q dedup ≡ true → sent ≡ record { queue = q; counter = c; result = none }
  unfolding send_message
  sent-duplicate h = rw h

  pub sent-accepted :
      is_duplicate q dedup ≡ false
      → sent ≡ record {
        queue = record q {
          sequence_counter = (q.sequence_counter + 1) % u64;
          dedup_ids = remember dedup new_message.message_id q.dedup_ids;
          messages = push_back q.messages new_message;
        };
        counter = fetch_add (fetch_add c);
        result = some (record {
          message_id = new_message.message_id;
          md5_of_body = new_message.md5_of_body;
          sequence_number = new_message.sequence_number;
        });
      }
  unfolding send_message Message.new
  sent-accepted h = rw h

  new_message-fields :
      (new_message.receipt_handle ≡ receipt_handle_of (fetch_add c))
      × (new_message.sequence_number ≡ (q.sequence_counter + 1) % u64)
  unfolding Message.new
  new_message-fields = (refl, refl)

  -- A send keeps the invariant, if neither 64-bit counter runs out.
  pub send_message-IsWellFormed :
      c + 2 < u64
      → q.sequence_counter + 1 < u64
      → IsWellFormed c q
      → IsWellFormed sent.counter sent.queue
  send_message-IsWellFormed room more w = elim (Bool-cases (is_duplicate q dedup)) [
    | inl dup ↦ rw (sent-duplicate dup) w
    | inr fresh ↦
        let seq : new_message.sequence_number ≡ q.sequence_counter + 1 =
          new_message-fields.1 ∙ (omega arith) in
        rw (sent-accepted fresh, fetch_add-eq c (omega arith), fetch_add-eq (c + 1) (omega arith))
          (record {
            handled =
                push_back-IsHandled c (c + 1) (c + 1 + 1) q.messages new_message (omega arith)
                  (omega arith) (omega arith)
                  (new_message-fields.0 ∙ ap receipt_handle_of (fetch_add-eq c (omega arith)))
                  w.handled;
            ascending =
                push_back-ascending q.messages new_message w.ascending
                  (All-map _ _ (λ n h. omega arith) _ w.bounded);
            bounded =
                push_back-sequence-All _ q.messages new_message
                  (All-map _ _ (λ n h. omega arith) _ w.bounded) (omega arith);
          })
  ]

  is_duplicate-sent :
      q.fifo ≡ true → (did : String) → dedup ≡ some did → is_duplicate sent.queue dedup ≡ true
  is_duplicate-sent f did e = elim (Bool-cases (is_duplicate q dedup)) [
    | inl dup ↦ rw (sent-duplicate dup) dup
    | inr fresh ↦ rw (sent-accepted fresh, e) (unfold is_duplicate in simp (f, get-insert, eq_refl))
  ]

-- On a FIFO queue a second send with the deduplication id of the first is dropped, whatever its
-- body, delay, attributes and group: the queue and the counter stay as they are, and the result is
-- `none`.
pub send_message_twice :
    (md5_hex : String → String) (c c' now later : ℕ) (q : SqsQueue) (body body' : String)
    (delay delay' : Option ℕ) (attrs attrs' : Dict MessageAttributeValue)
    (group group' : Option String) (did : String)
    → q.fifo ≡ true
    → send_message md5_hex c' later
        (send_message md5_hex c now q body delay attrs group (some did)).queue
        body'
        delay'
        attrs'
        group'
        (some did)
      ≡ record {
        queue = (send_message md5_hex c now q body delay attrs group (some did)).queue;
        counter = c';
        result = none;
      }
send_message_twice md5_hex c c' now later q body body' delay delay' attrs attrs' group group' did
      f =
    sent-duplicate md5_hex c' later _ body' delay' attrs' group' (some did)
      (is_duplicate-sent md5_hex c now q body delay attrs group (some did) f did refl)

-- The queue is FIFO and has seen the deduplication id that the message carries.
abbrev pub HasSeen : SqsQueue → Option String → Type 0
HasSeen q dedup =
    (q.fifo ≡ true)
    × (did : String) × (v : String) × (dedup ≡ some did)
    × (get did q.dedup_ids ≡ some v)

is_duplicate-HasSeen :
    (q : SqsQueue) (dedup : Option String) → is_duplicate q dedup ≡ true → HasSeen q dedup
unfolding is_duplicate
is_duplicate-HasSeen q none h = cc
is_duplicate-HasSeen q (some did) h = elim (Option-cases (get did q.dedup_ids)) [
  | inl missing ↦ absurd (ground arith)
  | inr (v, found) ↦ (ground arith, did, v, refl, found)
]

HasSeen-is_duplicate :
    (q : SqsQueue) (dedup : Option String) → HasSeen q dedup → is_duplicate q dedup ≡ true
unfolding is_duplicate
HasSeen-is_duplicate q dedup (f, did, v, e, found) = rw (e, f, found)

-- A send is dropped exactly when the queue is FIFO and has seen the deduplication id of the message.
pub send_message-eq-none :
    (md5_hex : String → String) (c now : ℕ) (q : SqsQueue) (body : String) (delay : Option ℕ)
    (attrs : Dict MessageAttributeValue) (group dedup : Option String)
    → ((send_message md5_hex c now q body delay attrs group dedup).result ≡ none) ↔ HasSeen q dedup
send_message-eq-none md5_hex c now q body delay attrs group dedup =
    elim (Bool-cases (is_duplicate q dedup)) [
      | inl dup ↦ (
        λ _. is_duplicate-HasSeen q dedup dup,
        λ _. rw (sent-duplicate md5_hex c now q body delay attrs group dedup dup),
      )
      | inr fresh ↦ (
        λ e.
            let e' = rw (sent-accepted md5_hex c now q body delay attrs group dedup fresh) at e in
            absurd (cc),
        λ seen. absurd (cc (HasSeen-is_duplicate q dedup seen)),
      )
    ]
