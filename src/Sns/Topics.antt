-- ===== src/Sns/Topics.antt =====
-- The invariant of topics and subscriptions (crates/services/sns/src/store.rs).
use openstack.Prelude.{
  ℕ, String, ◌==◌, ◌≡◌, refl, ap, ◌∙◌, inl, inr, Bool, true, false, not, Option, none, some, List,
  [], ◌∷◌, Dict, get, insert, remove, contains_key, All, All-map, insert-AllAt, remove-AllAt,
  get-AllAt, contains_key-insert, get-remove, Option-cases, Bool-cases, eq_iff, arith,
  if◌then◌else◌,
}
use openstack.Sns.Store.{
  FilterPolicy, Protocol, Subscription, Topic, SnsStore, empty, new_topic, topic_arn_of,
  with_attributes, new_subscription, create_topic, delete_topic, retain_entries, subscribe,
  unsubscribe, set_topic_attribute, set_subscription_attribute,
}

-- What requests do to the store.
pub data Change : Type 0 where
  creates : ℕ → String → String → String → Dict String → Change
  deletes : String → Change
  subscribes : ℕ → String → String → Protocol → String → String → Change
  unsubscribes : String → Change
  sets_topic : String → String → String → Change
  sets_subscription : String → String → String → Change

-- A write to the topic or the subscription that `get_mut` finds.
unfoldable pub modify {ℓ} : {V : Type ℓ} → String → (V → V) → Dict V → Dict V
modify k f m = elim (get k m) [ none ↦ m | some v ↦ insert k (f v) m ]

unfoldable pub apply : (String → Option FilterPolicy) → Change → SnsStore → SnsStore
unfolding modify
apply from_json (creates now name account region attrs) store =
    create_topic now name account region attrs store
apply from_json (deletes arn) store = (delete_topic arn store).0
apply from_json (subscribes now uuid arn protocol endpoint account) store =
    (subscribe now uuid arn protocol endpoint account store).0
apply from_json (unsubscribes arn) store = (unsubscribe arn store).0
apply from_json (sets_topic arn name value) store = record store {
  topics = modify arn (set_topic_attribute name value) store.topics;
}
apply from_json (sets_subscription arn name value) store = record store {
  subscriptions = modify arn (set_subscription_attribute from_json name value) store.subscriptions;
}

-- The store after a sequence of changes.
unfoldable pub run : (String → Option FilterPolicy) → List Change → SnsStore → SnsStore
unfolding apply
run from_json [] store = store
run from_json (c ∷ cs) store = run from_json cs (apply from_json c store)

-- Topics and subscriptions stand under their own ARNs, and the topic of a subscription is there.
pub record IsSound (store : SnsStore) : Type 0 where
  pub topics_keyed : All (λ e. e.1.topic_arn ≡ e.0) store.topics
  pub subscriptions_keyed : All (λ e. e.1.subscription_arn ≡ e.0) store.subscriptions
  pub attached : All (λ e. contains_key e.1.topic_arn store.topics ≡ true) store.subscriptions

-- More topics, or the same with other attributes.
insert_topic-IsSound :
    (store : SnsStore) (arn : String) (t : Topic)
    → t.topic_arn ≡ arn
    → IsSound store
    → IsSound record store { topics = insert arn t store.topics }
insert_topic-IsSound store arn t name h = record {
  topics_keyed = insert-AllAt (λ j w. w.topic_arn ≡ j) arn t store.topics name h.topics_keyed;
  subscriptions_keyed = h.subscriptions_keyed;
  attached =
      All-map (λ e. contains_key e.1.topic_arn store.topics ≡ true)
        (λ e. contains_key e.1.topic_arn (insert arn t store.topics) ≡ true)
        (λ e there. contains_key-insert arn e.1.topic_arn t store.topics there) store.subscriptions
        h.attached;
}

insert_subscription-IsSound :
    (store : SnsStore) (arn : String) (s : Subscription)
    → s.subscription_arn ≡ arn
    → contains_key s.topic_arn store.topics ≡ true
    → IsSound store
    → IsSound record store { subscriptions = insert arn s store.subscriptions }
insert_subscription-IsSound store arn s name there h = record {
  topics_keyed = h.topics_keyed;
  subscriptions_keyed =
      insert-AllAt (λ j w. w.subscription_arn ≡ j) arn s store.subscriptions name
        h.subscriptions_keyed;
  attached =
      insert-AllAt (λ j w. contains_key w.topic_arn store.topics ≡ true) arn s store.subscriptions
        there h.attached;
}

create_topic-IsSound :
    (now : ℕ) (name account region : String) (attrs : Dict String) (store : SnsStore)
    → IsSound store
    → IsSound (create_topic now name account region attrs store)
unfolding create_topic with_attributes new_topic
create_topic-IsSound now name account region attrs store h =
    elim (Bool-cases (contains_key (topic_arn_of name account region) store.topics)) [
      | inl there ↦ rw (there, create_topic) h
      | inr free ↦
          rw (free, create_topic)
            (insert_topic-IsSound store (topic_arn_of name account region)
              (with_attributes attrs (new_topic now name account region)) refl h)
    ]

-- The subscriptions that are kept have another topic, which the removal leaves.
retain_entries-All :
    (arn : String) (topics : Dict Topic) (m : Dict Subscription)
    → All (λ e. e.1.subscription_arn ≡ e.0) m
    → All (λ e. contains_key e.1.topic_arn topics ≡ true) m
    → All (λ e. e.1.subscription_arn ≡ e.0) (retain_entries (λ s. not (s.topic_arn == arn)) m)
      × All
          (λ e. contains_key e.1.topic_arn (remove arn topics) ≡ true)
          (retain_entries (λ s. not (s.topic_arn == arn)) m)
unfolding retain_entries
retain_entries-All arn topics [] h k = (tt, tt)
retain_entries-All arn topics ((j, s) ∷ m) h k =
    let (names, others) = retain_entries-All arn topics m h.1 k.1 in
    elim (Bool-cases (s.topic_arn == arn)) [
      | inl same ↦ rw (same, retain_entries) (names, others)
      | inr other ↦
          let differs : (arn == s.topic_arn) ≡ false =
            ground (arith, eq_iff arn s.topic_arn, eq_iff s.topic_arn arn) in
          let left : contains_key s.topic_arn (remove arn topics) ≡ true =
            rw (get-remove arn s.topic_arn topics, differs) k.0 in
          rw (other, retain_entries) ((h.0, names), (left, others))
    ]

delete_topic-IsSound :
    (arn : String) (store : SnsStore) → IsSound store → IsSound (delete_topic arn store).0
unfolding delete_topic
delete_topic-IsSound arn store h = elim (Bool-cases (contains_key arn store.topics)) [
  | inl there ↦
      let (names, others) =
        retain_entries-All arn store.topics store.subscriptions h.subscriptions_keyed h.attached in
      rw (there, delete_topic)
        record {
          topics_keyed = remove-AllAt (λ j w. w.topic_arn ≡ j) arn store.topics h.topics_keyed;
          subscriptions_keyed = names;
          attached = others;
        }
  | inr missing ↦ rw (missing, delete_topic) h
]

subscribe-IsSound :
    (now : ℕ) (uuid arn : String) (protocol : Protocol) (endpoint account : String)
    (store : SnsStore)
    → IsSound store
    → IsSound (subscribe now uuid arn protocol endpoint account store).0
unfolding subscribe new_subscription
subscribe-IsSound now uuid arn protocol endpoint account store h =
    elim (Bool-cases (contains_key arn store.topics)) [
      | inl there ↦
          rw (there, subscribe)
            (insert_subscription-IsSound store _
              (new_subscription now uuid arn protocol endpoint account) refl there h)
      | inr missing ↦ rw (missing, subscribe) h
    ]

unsubscribe-IsSound :
    (arn : String) (store : SnsStore) → IsSound store → IsSound (unsubscribe arn store).0
unfolding unsubscribe
unsubscribe-IsSound arn store h = record {
  topics_keyed = h.topics_keyed;
  subscriptions_keyed =
      remove-AllAt (λ j w. w.subscription_arn ≡ j) arn store.subscriptions h.subscriptions_keyed;
  attached =
      remove-AllAt (λ j w. contains_key w.topic_arn store.topics ≡ true) arn store.subscriptions
        h.attached;
}

-- What both branches have, the conditional has.
if-eq {ℓ κ} :
    {A : Type ℓ} {B : Type κ} (f : A → B) (b : Bool) (x y : A) (v : B)
    → f x ≡ v
    → f y ≡ v
    → f (if b then x else y) ≡ v
if-eq f true x y v p q = p
if-eq f false x y v p q = q

set_topic_attribute-topic_arn :
    (name value : String) (t : Topic) → (set_topic_attribute name value t).topic_arn ≡ t.topic_arn
unfolding set_topic_attribute
set_topic_attribute-topic_arn name value t =
    let arn = λ (u : Topic). u.topic_arn in
    if-eq arn (name == "DisplayName") _ _ _ refl (
      if-eq arn (name == "Policy") _ _ _ refl (
        if-eq arn (name == "DeliveryPolicy") _ _ _ refl (
          if-eq arn (name == "KmsMasterKeyId") _ _ _ refl
            (if-eq arn (name == "ContentBasedDeduplication") _ _ _ refl refl))))

set_subscription_attribute-arns :
    (from_json : String → Option FilterPolicy) (name value : String) (s : Subscription)
    → ((set_subscription_attribute from_json name value s).subscription_arn ≡ s.subscription_arn)
      × ((set_subscription_attribute from_json name value s).topic_arn ≡ s.topic_arn)
unfolding set_subscription_attribute
set_subscription_attribute-arns from_json name value s =
    let own = λ (u : Subscription). u.subscription_arn in
    let topic = λ (u : Subscription). u.topic_arn in
    (
      if-eq own (name == "RawMessageDelivery") _ _ _ refl
          (if-eq own (name == "FilterPolicy") _ _ _ refl refl),
      if-eq topic (name == "RawMessageDelivery") _ _ _ refl
          (if-eq topic (name == "FilterPolicy") _ _ _ refl refl),
    )

modify_topic-IsSound :
    (arn name value : String) (store : SnsStore)
    → IsSound store
    → IsSound record store { topics = modify arn (set_topic_attribute name value) store.topics }
unfolding modify
modify_topic-IsSound arn name value store h = elim (Option-cases (get arn store.topics)) [
  | inl missing ↦ rw (missing, modify) h
  | inr (t, found) ↦
      let own = get-AllAt (λ j w. w.topic_arn ≡ j) arn store.topics t found h.topics_keyed in
      rw (found, modify)
        (insert_topic-IsSound store arn _ (set_topic_attribute-topic_arn name value t ∙ own) h)
]

modify_subscription-IsSound :
    (from_json : String → Option FilterPolicy) (arn name value : String) (store : SnsStore)
    → IsSound store
    → IsSound record store {
      subscriptions =
          modify arn (set_subscription_attribute from_json name value) store.subscriptions;
    }
unfolding modify
modify_subscription-IsSound from_json arn name value store h =
    elim (Option-cases (get arn store.subscriptions)) [
      | inl missing ↦ rw (missing, modify) h
      | inr (s, found) ↦
          let own =
            get-AllAt (λ j w. w.subscription_arn ≡ j) arn store.subscriptions s found
              h.subscriptions_keyed in
          let there =
            get-AllAt (λ j w. contains_key w.topic_arn store.topics ≡ true) arn store.subscriptions
              s found h.attached in
          let (same, topic) = set_subscription_attribute-arns from_json name value s in
          rw (found, modify)
            (insert_subscription-IsSound store arn _ (same ∙ own)
              (ap (λ a. contains_key a store.topics) topic ∙ there) h)
    ]

apply-IsSound :
    (from_json : String → Option FilterPolicy) (c : Change) (store : SnsStore)
    → IsSound store
    → IsSound (apply from_json c store)
unfolding apply
apply-IsSound from_json (creates now name account region attrs) store h =
    create_topic-IsSound now name account region attrs store h
apply-IsSound from_json (deletes arn) store h = delete_topic-IsSound arn store h
apply-IsSound from_json (subscribes now uuid arn protocol endpoint account) store h =
    subscribe-IsSound now uuid arn protocol endpoint account store h
apply-IsSound from_json (unsubscribes arn) store h = unsubscribe-IsSound arn store h
apply-IsSound from_json (sets_topic arn name value) store h =
    modify_topic-IsSound arn name value store h
apply-IsSound from_json (sets_subscription arn name value) store h =
    modify_subscription-IsSound from_json arn name value store h

run_from-IsSound :
    (from_json : String → Option FilterPolicy) (cs : List Change) (store : SnsStore)
    → IsSound store
    → IsSound (run from_json cs store)
unfolding run
run_from-IsSound from_json [] store h = h
run_from-IsSound from_json (c ∷ cs) store h =
    run_from-IsSound from_json cs (apply from_json c store) (apply-IsSound from_json c store h)

-- Whatever topics are created and deleted, subscriptions made and removed, and attributes set, in whatever
-- order: topics and subscriptions stand under their own ARNs, and the topic of every subscription is
-- there, so that a deleted topic leaves no subscription behind.
pub run-IsSound :
    (from_json : String → Option FilterPolicy) (cs : List Change) → IsSound (run from_json cs empty)
run-IsSound from_json cs =
    run_from-IsSound from_json cs empty
      record { topics_keyed = tt; subscriptions_keyed = tt; attached = tt }
