-- ===== src/Sns/Handlers.antt =====
-- crates/services/sns/src/provider.rs: the handlers that change topics and subscriptions, and those that
-- list them. The parameters are those of the query protocol, `request_id` is what `new_request_id` makes,
-- and `uuid` the id of a new subscription. `escape_xml` and `extract_indexed_kv` are the same code as in
-- the queue service.
use openstack.Prelude.{
  ℕ, String, ◌++◌, Option, none, some, List, [], ◌∷◌, Dict, get, values, contains_key, insert,
  unwrap_or, if◌then◌else◌,
}
use openstack.Framework.Traits.{RequestContext, DispatchResponse, xml}
use openstack.Sqs.Params.{extract_indexed_kv}
use openstack.Sqs.Xml.{escape_xml}
use openstack.Sns.Store.{
  FilterPolicy, parse, protocol_text, Subscription, Topic, SnsStore, topic_arn_of, create_topic,
  delete_topic, subscribe, unsubscribe, list_subscriptions_by_topic, set_topic_attribute,
  set_subscription_attribute,
}

xml_response : ℕ → String → DispatchResponse
xml_response status text = record {
  status_code = status;
  body = xml ("<?xml version=\"1.0\" encoding=\"UTF-8\"?>" ++ text);
  content_type = "text/xml";
  headers = [];
}

abbrev opening : String → String
opening action = "<" ++ action ++ "Response xmlns=\"https://sns.amazonaws.com/doc/2010-03-31/\">"

abbrev closing : String → String → String
closing action request_id =
    "<ResponseMetadata><RequestId>" ++ request_id ++ "</RequestId></ResponseMetadata></" ++ action
    ++ "Response>"

unfoldable pub xml_wrap : String → String → String → DispatchResponse
unfolding xml_response
xml_wrap action request_id inner = xml_response 200 (
    opening action
    ++ "<"
    ++ action
    ++ "Result>"
    ++ inner
    ++ "</"
    ++ action
    ++ "Result>"
    ++ closing action request_id)

unfoldable pub xml_no_result : String → String → DispatchResponse
unfolding xml_response
xml_no_result action request_id = xml_response 200 (opening action ++ closing action request_id)

unfoldable pub sns_error : String → String → ℕ → DispatchResponse
unfolding xml_response
sns_error error_code message status = xml_response status (
    "<ErrorResponse xmlns=\"https://sns.amazonaws.com/doc/2010-03-31/\">"
    ++ "<Error><Type>Sender</Type><Code>" ++ error_code ++ "</Code><Message>" ++ message
    ++ "</Message></Error></ErrorResponse>")

-- What a handler leaves and answers.
abbrev pub Handled : Type 0
Handled = SnsStore × DispatchResponse

-- A parameter that has to be there.
abbrev needs : Dict String → String → SnsStore → (String → Handled) → Handled
needs params key store f = elim (get key params) [
  | none ↦ (store, sns_error "InvalidParameter" (key ++ " is required") 400)
  | some v ↦ f v
]

unfoldable pub handle_create_topic : String → ℕ → RequestContext → Dict String → SnsStore → Handled
unfolding get xml_wrap sns_error create_topic extract_indexed_kv escape_xml
handle_create_topic request_id now ctx params store = needs params "Name" store (λ name.
    let attrs = extract_indexed_kv params "Attributes.entry" in
    let created = create_topic now name ctx.account_id ctx.region attrs store in
    let arn = topic_arn_of name ctx.account_id ctx.region in
    let shown = elim (get arn created.topics) as (λ t. String) [
      | none ↦ ""
      | some t ↦ t.topic_arn
    ] in
    (
      created,
      xml_wrap "CreateTopic" request_id ("<TopicArn>" ++ escape_xml shown ++ "</TopicArn>"),
    ))

unfoldable pub handle_delete_topic : String → Dict String → SnsStore → Handled
unfolding get xml_no_result sns_error delete_topic
handle_delete_topic request_id params store =
    needs params "TopicArn" store
      (λ arn. ((delete_topic arn store).0, xml_no_result "DeleteTopic" request_id))

topic_members : List Topic → String
unfolding escape_xml
topic_members [] = ""
topic_members (t ∷ ts) =
    "<member><TopicArn>" ++ escape_xml t.topic_arn ++ "</TopicArn></member>" ++ topic_members ts

unfoldable pub handle_list_topics : String → SnsStore → DispatchResponse
unfolding topic_members xml_wrap
handle_list_topics request_id store =
    xml_wrap "ListTopics" request_id
      ("<Topics>" ++ topic_members (values store.topics) ++ "</Topics>")

unfoldable pub handle_set_topic_attributes : String → Dict String → SnsStore → Handled
unfolding get insert xml_no_result sns_error set_topic_attribute
handle_set_topic_attributes request_id params store = needs params "TopicArn" store (λ arn.
    needs params "AttributeName" store (λ name.
      let value = unwrap_or (get "AttributeValue" params) "" in
      elim (get arn store.topics) [
        | none ↦ (store, sns_error "NotFound" "Topic not found" 404)
        | some t ↦ (
          record store { topics = insert arn (set_topic_attribute name value t) store.topics },
          xml_no_result "SetTopicAttributes" request_id,
        )
      ]))

-- What `subscribe` returns, answered.
abbrev subscribed : String → SnsStore × Option String → Handled
subscribed request_id (store, none) = (store, sns_error "NotFound" "Topic not found" 404)
subscribed request_id (store, some arn) = (
  store,
  xml_wrap "Subscribe" request_id ("<SubscriptionArn>" ++ escape_xml arn ++ "</SubscriptionArn>"),
)

unfoldable pub handle_subscribe :
    String → ℕ → String → RequestContext → Dict String → SnsStore → Handled
unfolding get parse subscribe xml_wrap sns_error
handle_subscribe request_id now uuid ctx params store = needs params "TopicArn" store (λ topic_arn.
    needs params "Protocol" store (λ protocol_str.
      let endpoint = unwrap_or (get "Endpoint" params) "" in
      elim (parse protocol_str) [
        | none ↦ (store, sns_error "InvalidParameter" "Unsupported protocol" 400)
        | some protocol ↦
            subscribed request_id
              (subscribe now uuid topic_arn protocol endpoint ctx.account_id store)
      ]))

unfoldable pub handle_unsubscribe : String → Dict String → SnsStore → Handled
unfolding get unsubscribe xml_no_result sns_error
handle_unsubscribe request_id params store = needs params "SubscriptionArn" store (λ arn.
    let (left, there) = unsubscribe arn store in
    if there
    then (left, xml_no_result "Unsubscribe" request_id)
    else (left, sns_error "NotFound" "Subscription not found" 404))

subscription_members : List Subscription → String
unfolding escape_xml protocol_text
subscription_members [] = ""
subscription_members (s ∷ ss) =
    "<member><SubscriptionArn>"
    ++ escape_xml s.subscription_arn
    ++ "</SubscriptionArn><Owner>"
    ++ escape_xml s.owner
    ++ "</Owner><Protocol>"
    ++ escape_xml (protocol_text s.protocol)
    ++ "</Protocol><Endpoint>"
    ++ escape_xml s.endpoint
    ++ "</Endpoint><TopicArn>"
    ++ escape_xml s.topic_arn
    ++ "</TopicArn></member>"
    ++ subscription_members ss

abbrev subscription_list : List Subscription → String
subscription_list ss = "<Subscriptions>" ++ subscription_members ss ++ "</Subscriptions>"

unfoldable pub handle_list_subscriptions : String → SnsStore → DispatchResponse
unfolding subscription_members xml_wrap
handle_list_subscriptions request_id store =
    xml_wrap "ListSubscriptions" request_id (subscription_list (values store.subscriptions))

unfoldable pub handle_list_subscriptions_by_topic :
    String → Dict String → SnsStore → DispatchResponse
unfolding get subscription_members xml_wrap sns_error list_subscriptions_by_topic
handle_list_subscriptions_by_topic request_id params store = elim (get "TopicArn" params) [
  | none ↦ sns_error "InvalidParameter" "TopicArn is required" 400
  | some arn ↦
      if contains_key arn store.topics
      then xml_wrap "ListSubscriptionsByTopic" request_id
          (subscription_list (list_subscriptions_by_topic arn store))
      else sns_error "NotFound" "Topic not found" 404
]

unfoldable pub handle_set_subscription_attributes :
    (String → Option FilterPolicy) → String → Dict String → SnsStore → Handled
unfolding get insert xml_no_result sns_error set_subscription_attribute
handle_set_subscription_attributes from_json request_id params store =
    needs params "SubscriptionArn" store (λ arn. needs params "AttributeName" store (λ name.
      let value = unwrap_or (get "AttributeValue" params) "" in
      elim (get arn store.subscriptions) [
        | none ↦ (store, sns_error "NotFound" "Subscription not found" 404)
        | some s ↦ (
          record store {
            subscriptions =
                insert arn (set_subscription_attribute from_json name value s) store.subscriptions;
          },
          xml_no_result "SetSubscriptionAttributes" request_id,
        )
      ]))
