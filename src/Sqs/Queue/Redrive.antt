-- ===== src/Sqs/Queue/Redrive.antt =====
-- `messages_for_dlq` and `remove_dlq_candidates`, which read the redrive policy.
use mathlib.Core.List.{◌++◌, Perm, perm_middle}
use mathlib.Core.List.Perm
use openstack.Prelude.{
  ◌≤◌, ◌<◌, ◌≡◌, Bool, true, not, some, List, [], ◌∷◌, inl, inr, Bool-cases, All, arith, retain,
}
use openstack.Sqs.Queue.{SqsQueue, RedrivePolicy, messages_for_dlq, remove_dlq_candidates}

retain-split {ℓ} :
    {A : Type ℓ} (p r : A → Bool)
    → ((x : A) → r x ≡ not (p x))
    → (xs : List A) → Perm (retain p xs ++ retain r xs) xs
retain-split p r h [] = Perm.refl []
retain-split p r h (x ∷ xs) = elim (Bool-cases (p x)) [
  | inl t ↦ rw (h x, t) (Perm.cons x (retain-split p r h xs))
  | inr f ↦
      rw (h x, f)
        (Perm.trans (perm_middle (retain p xs) (retain r xs)) (Perm.cons x (retain-split p r h xs)))
]

All-retain_self {ℓ κ} :
    {A : Type ℓ} (P : A → Type κ) (p : A → Bool)
    → ((x : A) → p x ≡ true → P x)
    → (xs : List A) → All P (retain p xs)
All-retain_self P p h [] = tt
All-retain_self P p h (x ∷ xs) = elim (Bool-cases (p x)) [
  | inl t ↦ rw t (h x t, All-retain_self P p h xs)
  | inr f ↦ rw f (All-retain_self P p h xs)
]

module _ (q : SqsQueue) (rp : RedrivePolicy) (policy : q.redrive_policy ≡ some rp) where
  -- Under a redrive policy the candidates for the dead-letter queue and the messages that a removal
  -- leaves are together the messages of the queue; every candidate has been received at least as
  -- often as `max_receive_count`, so that a message is one from the receive that reaches this number
  -- on, and every message left has been received fewer times.
  pub messages_for_dlq-remove_dlq_candidates :
      Perm (messages_for_dlq q ++ (remove_dlq_candidates q).messages) q.messages
      × All (λ m. rp.max_receive_count ≤ m.receive_count) (messages_for_dlq q)
      × All (λ m. m.receive_count < rp.max_receive_count) (remove_dlq_candidates q).messages
  unfolding messages_for_dlq remove_dlq_candidates
  messages_for_dlq-remove_dlq_candidates = rw policy (
    retain-split _ _ (λ m. ground arith) q.messages,
    All-retain_self _ _ (λ m h. ground arith) q.messages,
    All-retain_self _ _ (λ m h. ground arith) q.messages,
  )
