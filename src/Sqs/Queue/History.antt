-- ===== src/Sqs/Queue/History.antt =====
-- The life of a queue: its operations in any order, while other queues draw from the same counter.
use openstack.Prelude.{
  retain, ℕ, ◌+◌, ◌≤◌, ◌<◌, ◌≡◌, String, Option, Dict, length, All-map, All-map-retain,
  Pairwise-map-retain, ltb, none, some,
}
use openstack.Framework.Json.{Json}
use openstack.Sqs.Store.{apply_queue_attributes}
use openstack.Sqs.Ids.{u64}
use openstack.Sqs.Message.{MessageAttributeValue}
use openstack.Sqs.Queue.{
  SqsQueue, RedrivePolicy, new, send_message, receive_messages, delete_message, change_visibility,
  purge, remove_dlq_candidates,
}
use openstack.Sqs.Queue.Handles.{IsIssued, IsIssued-mono}
use openstack.Sqs.Queue.Invariant.{
  IsWellFormed, received, new-IsWellFormed, receive_messages-IsWellFormed,
  delete_message-IsWellFormed, change_visibility-IsWellFormed,
}
use openstack.Sqs.Queue.Send.{send_message-IsWellFormed}

module _ (md5_hex : String → String) where
  -- One step: a call on the queue, a draw from the counter elsewhere, or a change of the queue's
  -- attributes. A call is a step only while the 64-bit counters have room.
  pub data Step (c : ℕ) (q : SqsQueue) (d : ℕ) (r : SqsQueue) : Type 0 where
    send :
        (now : ℕ) (body : String) (delay : Option ℕ) (attrs : Dict MessageAttributeValue)
        (group dedup : Option String)
        → c + 2 < u64
        → q.sequence_counter + 1 < u64
        → d ≡ (send_message md5_hex c now q body delay attrs group dedup).counter
        → r ≡ (send_message md5_hex c now q body delay attrs group dedup).queue
        → Step c q d r
    receive :
        (n : ℕ) (timeout : Option ℕ) (now : ℕ)
        → c + length q.messages < u64
        → d ≡ (receive_messages c n timeout now q).counter
        → r ≡ received c n timeout now q
        → Step c q d r
    delete : (h : String) → d ≡ c → r ≡ (delete_message h q).0 → Step c q d r
    change : (h : String) (vt now : ℕ) → d ≡ c → r ≡ (change_visibility h vt now q).0 → Step c q d r
    purge_all : d ≡ c → r ≡ purge q → Step c q d r
    redrive : d ≡ c → r ≡ remove_dlq_candidates q → Step c q d r
    draw : c ≤ d → r ≡ q → Step c q d r
    configure :
        (from_str : String → Option Json) (now : ℕ) (attrs : Dict String)
        → d ≡ c
        → r ≡ apply_queue_attributes from_str now q attrs
        → Step c q d r

  pub data Reach (c : ℕ) (q : SqsQueue) : ℕ → SqsQueue → Type 0 where
    here : Reach c q c q
    next : {d e : ℕ} {r s : SqsQueue} → Reach c q d r → Step d r e s → Reach c q e s

IsWellFormed-mono : (c d : ℕ) (q : SqsQueue) → c ≤ d → IsWellFormed c q → IsWellFormed d q
IsWellFormed-mono c d q le w = record {
  handled = record {
    issued = All-map (IsIssued c) (IsIssued d) (IsIssued-mono c d le) _ w.handled.issued;
    distinct = w.handled.distinct;
  };
  ascending = w.ascending;
  bounded = w.bounded;
}

purge-IsWellFormed : (c : ℕ) (q : SqsQueue) → IsWellFormed c (purge q)
unfolding purge
purge-IsWellFormed c q = record {
  handled = record { issued = tt; distinct = tt };
  ascending = tt;
  bounded = tt;
}

remove_dlq_candidates-IsWellFormed :
    (c : ℕ) (q : SqsQueue) → IsWellFormed c q → IsWellFormed c (remove_dlq_candidates q)
unfolding remove_dlq_candidates
remove_dlq_candidates-IsWellFormed c q w = by_policy q.redrive_policy
  where
    by_policy :
        (p : Option RedrivePolicy)
        → IsWellFormed c (elim p [
          | none ↦ q
          | some rp ↦ record q {
            messages = retain (λ m. ltb m.receive_count rp.max_receive_count) q.messages;
          }
        ])
    by_policy none = w
    by_policy (some rp) = record {
      handled = record {
        issued = All-map-retain (IsIssued c) _ _ q.messages w.handled.issued;
        distinct = Pairwise-map-retain _ _ _ q.messages w.handled.distinct;
      };
      ascending = Pairwise-map-retain _ _ _ q.messages w.ascending;
      bounded = All-map-retain _ _ _ q.messages w.bounded;
    }

apply_queue_attributes-IsWellFormed :
    (from_str : String → Option Json) (c now : ℕ) (q : SqsQueue) (attrs : Dict String)
    → IsWellFormed c q
    → IsWellFormed c (apply_queue_attributes from_str now q attrs)
unfolding apply_queue_attributes
apply_queue_attributes-IsWellFormed from_str c now q attrs w = record {
  handled = w.handled;
  ascending = w.ascending;
  bounded = w.bounded;
}

module _ (md5_hex : String → String) where
  -- Every step keeps the invariant.
  pub Step-IsWellFormed :
      {c d : ℕ} {q r : SqsQueue} → Step md5_hex c q d r → IsWellFormed c q → IsWellFormed d r
  Step-IsWellFormed {c} {q = q} (send now body delay attrs group dedup room more dc rq) w =
      rw (dc, rq)
        (send_message-IsWellFormed md5_hex c now q body delay attrs group dedup room more w)
  Step-IsWellFormed {c} {q = q} (receive n timeout now room dc rq) w =
      rw (dc, rq) (receive_messages-IsWellFormed c n timeout now q room w)
  Step-IsWellFormed {c} {q = q} (delete h dc rq) w =
      rw (dc, rq) (delete_message-IsWellFormed c h q w)
  Step-IsWellFormed {c} {q = q} (change h vt now dc rq) w =
      rw (dc, rq) (change_visibility-IsWellFormed c h vt now q w)
  Step-IsWellFormed {c} {q = q} (purge_all dc rq) w = rw (dc, rq) (purge-IsWellFormed c q)
  Step-IsWellFormed {c} {q = q} (redrive dc rq) w =
      rw (dc, rq) (remove_dlq_candidates-IsWellFormed c q w)
  Step-IsWellFormed {c} {d} {q = q} (draw le rq) w = rw rq (IsWellFormed-mono c d q le w)
  Step-IsWellFormed {c} {q = q} (configure from_str now attrs dc rq) w =
      rw (dc, rq) (apply_queue_attributes-IsWellFormed from_str c now q attrs w)

  Reach-keeps :
      {c : ℕ} {q : SqsQueue} {d : ℕ} {r : SqsQueue}
      → Reach md5_hex c q d r
      → IsWellFormed c q
      → IsWellFormed d r
  Reach-keeps here w = w
  Reach-keeps (next reached step) w = Step-IsWellFormed step (Reach-keeps reached w)

  -- However a new queue is used, by steps that leave room in the 64-bit counters: no two of its
  -- messages share a receipt handle, every handle was made from a value that the counter has left
  -- behind, and the sequence numbers ascend from front to back and never pass the queue's counter.
  pub Reach-IsWellFormed :
      {c d : ℕ} {r : SqsQueue} (now : ℕ) (name base account region : String)
      → Reach md5_hex c (new now name base account region) d r
      → IsWellFormed d r
  Reach-IsWellFormed {c} now name base account region reached =
      Reach-keeps reached (new-IsWellFormed c now name base account region)
