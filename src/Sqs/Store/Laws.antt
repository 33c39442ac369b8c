-- ===== src/Sqs/Store/Laws.antt =====
-- Creating, finding and deleting queues by name.
use text.Mathlib.TextLemmas.{append_assoc}
use openstack.Prelude.{
  ◌⊎◌, ℕ, ◌≡◌, refl, sym, ap, ◌∙◌, String, ◌++◌, Option, none, some, Dict, get, get-insert, inl,
  inr, Option-cases, arith, ◌==◌, eq_iff, eq_refl, if◌then◌else◌,
}
use openstack.Prelude.Text.{IsFree, after_last_from, after_last, after_last_from-append}
use openstack.Framework.Json.{Json}
use openstack.Sqs.Params.{queue_name_from_url}
use openstack.Sqs.Queue
use openstack.Sqs.Queue.{SqsQueue}
use openstack.Sqs.Store.{
  SqsStore, apply_queue_attributes, create_queue, get_queue_by_name, write_queue,
}

module _ (from_str : String → Option Json) (now : ℕ) (store : SqsStore)
    (name base account region : String) (attrs : Dict String) where
  abbrev pub created : SqsStore × Option SqsQueue
  created = create_queue from_str now store name base account region attrs

  abbrev pub fresh_queue : SqsQueue
  fresh_queue = apply_queue_attributes from_str now (Queue.new now name base account region) attrs

  -- `create_queue` never panics: the queue that it returns is the one that was there, unchanged, or
  -- else a new one with the given attributes; later reads by that name find it, and reads by any
  -- other name find what they found before.
  pub create_queue_lem :
      (q : SqsQueue) × (created.1 ≡ some q)
      × ((get_queue_by_name name store ≡ some q)
          ⊎ ((get_queue_by_name name store ≡ none) × (q ≡ fresh_queue)))
      × ((other : String)
          → get_queue_by_name other created.0
            ≡ (if name == other then some q else get_queue_by_name other store))
  unfolding create_queue get_queue_by_name
  create_queue_lem = elim (Option-cases (get name store.queues)) [
    | inl missing ↦ (
      fresh_queue,
      rw missing (rw get-insert (rw (eq_refl name))),
      inr (missing, refl),
      λ other. rw missing (get-insert name other fresh_queue store.queues),
    )
    | inr (q, found) ↦
        (q, rw found found, inl found, λ other. rw found (ground (arith, eq_iff name other)))
  ]

pub get_queue_by_name-write_queue :
    (name other : String) (q : SqsQueue) (store : SqsStore)
    → get_queue_by_name other (write_queue name q store)
      ≡ (if name == other then some q else get_queue_by_name other store)
unfolding write_queue get_queue_by_name
get_queue_by_name-write_queue name other q store = get-insert name other q store.queues

-- The name that a request's queue URL ends in is the name of the queue whose URL it is, for a name
-- without a slash.
pub queue_name_from_url-url :
    (now : ℕ) (name base account region : String)
    → IsFree b'/' name
    → queue_name_from_url (Queue.new now name base account region).url ≡ name
unfolding queue_name_from_url after_last Queue.new
queue_name_from_url-url now name base account region h =
    ap (λ u. after_last_from b'/' u u) shape
    ∙ after_last_from-append (base ++ ("/" ++ account)) name _ h
  where
    shape :
        base ++ ("/" ++ (account ++ ("/" ++ name))) ≡ (base ++ ("/" ++ account)) ++ ("/" ++ name)
    shape = sym (
        append_assoc base ("/" ++ account) ("/" ++ name)
        ∙ ap (λ t. base ++ t) (append_assoc "/" account ("/" ++ name)))
