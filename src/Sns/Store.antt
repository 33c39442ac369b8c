-- ===== src/Sns/Store.antt =====
-- crates/services/sns/src/store.rs: filter policies, topics, subscriptions and the store of one account
-- and region, and the two functions of provider.rs that write to what `get_topic_mut` and
-- `get_subscription_mut` find. The ids that `Uuid::new_v4` makes and the times are arguments.
use openstack.Prelude.{
  ℕ, String, ◌++◌, ◌==◌, Bool, true, false, not, Option, none, some, List, [], ◌∷◌, Dict, get,
  insert, remove, values, contains_key, any, retain, unwrap_or, if◌then◌else◌,
}
use openstack.Prelude.Text.{has_suffix}
use openstack.Framework.Json.{Json, as_str}

pub record MessageAttribute : Type 0 where
  pub data_type : String
  pub string_value : Option String
  pub binary_value : Option (List ℕ)

-- `FilterPolicy`: the allowed values of each attribute.
abbrev pub FilterPolicy : Type 0
FilterPolicy = Dict (List Json)

-- The value of an attribute is allowed by an entry that is that text.
unfoldable pub allows : String → Json → Bool
allows value v = elim (as_str v) [ none ↦ false | some s ↦ s == value ]

-- `FilterPolicy::matches`.
unfoldable pub matches : FilterPolicy → Dict MessageAttribute → Bool
unfolding allows
matches [] attributes = true
matches ((name, allowed) ∷ rest) attributes =
    let others = matches rest attributes in
    elim (get name attributes) [
      | none ↦ false
      | some a ↦ if any (allows (unwrap_or a.string_value "")) allowed then others else false
    ]

pub data Protocol : Type 0 where
  sqs : Protocol
  http : Protocol
  https : Protocol
  lambda_ : Protocol
  email : Protocol
  email_json : Protocol
  sms : Protocol
  application : Protocol
  firehose : Protocol

-- `Protocol::parse`.
unfoldable pub parse : String → Option Protocol
parse s =
    if s == "sqs"
    then some sqs
    else if s == "http"
    then some http
    else if s == "https"
    then some https
    else if s == "lambda"
    then some lambda_
    else if s == "email"
    then some email
    else if s == "email-json"
    then some email_json
    else if s == "sms"
    then some sms
    else if s == "application"
    then some application
    else if s == "firehose"
    then some firehose
    else none

unfoldable pub protocol_text : Protocol → String
protocol_text sqs = "sqs"
protocol_text http = "http"
protocol_text https = "https"
protocol_text lambda_ = "lambda"
protocol_text email = "email"
protocol_text email_json = "email-json"
protocol_text sms = "sms"
protocol_text application = "application"
protocol_text firehose = "firehose"

pub record Subscription : Type 0 where
  pub subscription_arn : String
  pub topic_arn : String
  pub protocol : Protocol
  pub endpoint : String
  pub owner : String
  pub raw_message_delivery : Bool
  pub filter_policy : Option FilterPolicy
  pub confirmation_was_authenticated : Bool
  pub pending_confirmation : Bool
  pub created : ℕ

-- `Subscription::new`.
unfoldable pub new_subscription : ℕ → String → String → Protocol → String → String → Subscription
new_subscription now uuid topic_arn protocol endpoint owner = record {
  subscription_arn = topic_arn ++ (":" ++ uuid);
  topic_arn = topic_arn;
  protocol = protocol;
  endpoint = endpoint;
  owner = owner;
  raw_message_delivery = false;
  filter_policy = none;
  confirmation_was_authenticated = true;
  pending_confirmation = false;
  created = now;
}

pub record Topic : Type 0 where
  pub topic_arn : String
  pub name : String
  pub display_name : String
  pub owner : String
  pub region : String
  pub created : ℕ
  pub fifo : Bool
  pub content_based_deduplication : Bool
  pub policy : Option String
  pub delivery_policy : Option String
  pub kms_master_key_id : Option String

abbrev pub topic_arn_of : String → String → String → String
topic_arn_of name account_id region = "arn:aws:sns:" ++ region ++ ":" ++ account_id ++ ":" ++ name

-- `Topic::new`.
unfoldable pub new_topic : ℕ → String → String → String → Topic
unfolding has_suffix
new_topic now name account_id region = record {
  topic_arn = topic_arn_of name account_id region;
  name = name;
  display_name = name;
  owner = account_id;
  region = region;
  created = now;
  fifo = has_suffix ".fifo" name;
  content_based_deduplication = false;
  policy = none;
  delivery_policy = none;
  kms_master_key_id = none;
}

pub record SnsStore : Type 0 where
  pub topics : Dict Topic
  pub subscriptions : Dict Subscription

-- `SnsStore::new`.
abbrev pub empty : SnsStore
empty = record { topics = []; subscriptions = [] }

-- The attribute if it is given, else what there was.
abbrev or_else : Option String → Option String → Option String
or_else none old = old
or_else (some v) old = some v

-- A new topic with the attributes that CreateTopic takes.
unfoldable pub with_attributes : Dict String → Topic → Topic
unfolding get
with_attributes attrs t = record t {
  display_name = unwrap_or (get "DisplayName" attrs) t.display_name;
  policy = or_else (get "Policy" attrs) t.policy;
  kms_master_key_id = or_else (get "KmsMasterKeyId" attrs) t.kms_master_key_id;
  content_based_deduplication = elim (get "ContentBasedDeduplication" attrs) [
    | none ↦ t.content_based_deduplication
    | some v ↦ v == "true"
  ];
}

-- What `create_topic` leaves; the topic that it returns stands under the ARN.
unfoldable pub create_topic : ℕ → String → String → String → Dict String → SnsStore → SnsStore
unfolding with_attributes new_topic
create_topic now name account_id region attrs store =
    let arn = topic_arn_of name account_id region in
    if contains_key arn store.topics then store else record store {
      topics =
          insert arn (with_attributes attrs (new_topic now name account_id region)) store.topics;
    }

-- `retain` of a map.
unfoldable pub retain_entries : (Subscription → Bool) → Dict Subscription → Dict Subscription
retain_entries p [] = []
retain_entries p ((k, s) ∷ m) = let rest = retain_entries p m in if p s then (k, s) ∷ rest else rest

-- `delete_topic`, with the topic's subscriptions.
unfoldable pub delete_topic : String → SnsStore → SnsStore × Bool
unfolding retain_entries
delete_topic arn store =
    if contains_key arn store.topics
    then (
      record {
        topics = remove arn store.topics;
        subscriptions = retain_entries (λ s. not (s.topic_arn == arn)) store.subscriptions;
      },
      true,
    )
    else (store, false)

unfoldable pub subscribe :
    ℕ → String → String → Protocol → String → String → SnsStore → SnsStore × Option String
unfolding new_subscription
subscribe now uuid topic_arn protocol endpoint account_id store =
    let sub = new_subscription now uuid topic_arn protocol endpoint account_id in
    if contains_key topic_arn store.topics
    then (
      record store { subscriptions = insert sub.subscription_arn sub store.subscriptions },
      some sub.subscription_arn,
    )
    else (store, none)

unfoldable pub unsubscribe : String → SnsStore → SnsStore × Bool
unsubscribe arn store = (
  record store { subscriptions = remove arn store.subscriptions },
  contains_key arn store.subscriptions,
)

unfoldable pub list_subscriptions_by_topic : String → SnsStore → List Subscription
list_subscriptions_by_topic arn store =
    retain (λ s. s.topic_arn == arn) (values store.subscriptions)

-- What SetTopicAttributes writes to the topic.
unfoldable pub set_topic_attribute : String → String → Topic → Topic
set_topic_attribute name value t =
    if name == "DisplayName"
    then record t { display_name = value }
    else if name == "Policy"
    then record t { policy = some value }
    else if name == "DeliveryPolicy"
    then record t { delivery_policy = some value }
    else if name == "KmsMasterKeyId"
    then record t { kms_master_key_id = some value }
    else if name == "ContentBasedDeduplication"
    then record t { content_based_deduplication = value == "true" }
    else t

-- What SetSubscriptionAttributes writes to the subscription; `from_json` is `FilterPolicy::from_json`, and
-- a text that it cannot parse leaves the subscription without a policy.
unfoldable pub set_subscription_attribute :
    (String → Option FilterPolicy) → String → String → Subscription → Subscription
set_subscription_attribute from_json name value s =
    if name == "RawMessageDelivery"
    then record s { raw_message_delivery = value == "true" }
    else if name == "FilterPolicy"
    then record s { filter_policy = from_json value }
    else s
