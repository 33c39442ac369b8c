-- ===== src/Sqs/Tests.antt =====
-- The theorems on concrete queues and requests.
use openstack.Prelude.{
  ◌≤◌, ◌==◌, ◌⊎◌, if◌then◌else◌, IsDistinct, All, ℕ, ◌<◌, ◌≡◌, ◌≢◌, ◌↔◌, refl, ap, String, ◌++◌,
  Option, none, some, [], ◌∷◌, map, Dict, take, Disjoint, retain, arith,
}
use openstack.Prelude.Text.{IsFree, first_code}
use openstack.Framework.Json.{Json, null}
use openstack.Framework.Traits.{RequestContext}
use openstack.State.Bundle.{get as stored}
use openstack.Sqs.Store.{SqsStore, empty, create_queue, get_queue_by_name}
use openstack.Sqs.Store.Laws.{created, fresh_queue, create_queue_lem, queue_name_from_url-url}
use openstack.Sqs.Params.{
  queue_name_from_url, entries, all_entries, name_value_at, message_attribute_at,
}
use openstack.Sqs.Params.Enough.{extract_loops_end}
use openstack.Sqs.Xml.{escape_xml, push_xml_escaped}
use openstack.Sqs.Xml.Escape.{IsMarkup, escape_xml-IsFree}
use openstack.Sqs.Provider.{SqsProvider, dispatch}
use openstack.Sqs.Provider.Laws.{dispatch-other}
use openstack.State.Bundle.{write}
use mathlib.Core.List.{◌++◌ as ◌+++◌, Perm}
use openstack.Sqs.Ids.{receipt_handle_of}
use openstack.Sqs.Ids.Unique.{receipt_handle_of-injective, message_uuid_like-injective}
use openstack.Sqs.Queue
use openstack.Sqs.Queue.{
  SqsQueue, RedrivePolicy, send_message, receive_messages, receive_loop, delete_message,
  change_visibility, messages_for_dlq, remove_dlq_candidates,
}
use openstack.Sqs.Queue.Spec.{visible_indices, payload}
use openstack.Sqs.Queue.Receive.{
  receive_messages-eq-receive_loop, receive_messages-indices, receive_messages-payload,
  receive_messages-exclusive,
}
use openstack.Sqs.Queue.Handles.{handles}
use openstack.Sqs.Queue.Change.{
  has_handle, lacks, changed, delete_message-eq-retain, change_visibility-eq-map,
}
use openstack.Sqs.Queue.Invariant.{IsWellFormed}
use openstack.Sqs.Queue.Send.{HasSeen, send_message_twice, send_message-eq-none}
use openstack.Sqs.Queue.Redrive.{messages_for_dlq-remove_dlq_candidates}
use openstack.Sqs.Queue.History.{here, next, send, Reach-IsWellFormed}

-- A digest and a parser to run the code with.
abbrev digest : String → String
digest s = "digest of " ++ s

abbrev no_json : String → Option Json
no_json s = none

abbrev new_queue : String → SqsQueue
new_queue name = Queue.new 0 name "http://localhost:4566" "000000000000" "us-east-1"

abbrev fifo_queue : SqsQueue
fifo_queue = new_queue "orders.fifo"

-- A queue with one message, and with two.
abbrev one_message : SqsQueue
one_message = (send_message digest 0 1 fifo_queue "first" none [] none (some "a")).queue

abbrev two_messages : SqsQueue
two_messages = (send_message digest 2 2 one_message "second" none [] none (some "b")).queue

Reach-IsWellFormed_example :
    IsWellFormed
      (send_message digest 0 1 fifo_queue "first" none [] none (some "a")).counter
      (send_message digest 0 1 fifo_queue "first" none [] none (some "a")).queue
unfolding Queue.new
Reach-IsWellFormed_example =
    Reach-IsWellFormed digest 0 "orders.fifo" "http://localhost:4566" "000000000000" "us-east-1"
      (next here (send 1 "first" none [] none (some "a") (omega arith) (omega arith) refl refl))

receive_messages-exclusive_example :
    Disjoint
      (receive_messages 4 1 none 5 two_messages).indices
      (receive_messages 5 10 none 6 (record two_messages {
        messages = (receive_messages 4 1 none 5 two_messages).messages;
      })).indices
unfolding Queue.new send_message
receive_messages-exclusive_example =
    receive_messages-exclusive 4 1 5 10 none none 5 6 two_messages (omega arith) (omega arith)

receive_messages-indices_example :
    (receive_messages 4 5 none 5 two_messages).indices
    ≡ take 5 (visible_indices 5 0 two_messages.messages)
receive_messages-indices_example = receive_messages-indices 4 5 none 5 two_messages

receive_messages-eq-receive_loop_example :
    receive_messages 4 1 (some 7) 5 two_messages ≡ receive_loop 1 7 5 0 4 two_messages.messages
receive_messages-eq-receive_loop_example =
    receive_messages-eq-receive_loop 4 1 (some 7) 5 two_messages

receive_messages-payload_example :
    map payload (receive_messages 4 2 none 5 two_messages).messages
    ≡ map payload two_messages.messages
receive_messages-payload_example = receive_messages-payload 4 2 none 5 two_messages

send_message_twice_example :
    send_message digest 9 8 one_message "again" (some 3) [] (some "g") (some "a")
    ≡ record { queue = one_message; counter = 9; result = none }
unfolding Queue.new
send_message_twice_example =
    send_message_twice digest 0 9 1 8 fifo_queue "first" "again" none (some 3) [] [] none (some "g")
      "a" refl

send_message-eq-none_example :
    ((send_message digest 2 3 one_message "again" none [] none (some "a")).result ≡ none)
    ↔ HasSeen one_message (some "a")
send_message-eq-none_example =
    send_message-eq-none digest 2 3 one_message "again" none [] none (some "a")

two_messages-IsDistinct : IsDistinct (handles two_messages.messages)
unfolding Queue.new send_message
two_messages-IsDistinct = (
  (λ e. absurd (omega (arith, receipt_handle_of-injective 1 3 (omega arith) (omega arith) e)), tt),
  (tt, tt),
)

-- Two messages, the first received once, under a policy that allows one receive.
abbrev dead_queue : SqsQueue
dead_queue = record two_messages {
  messages = (receive_messages 4 1 none 5 two_messages).messages;
  redrive_policy = some (record { dead_letter_target_arn = "dead"; max_receive_count = 1 });
}

delete_message-eq-retain_example : delete_message (receipt_handle_of 1) two_messages ≡ (
  record two_messages { messages = retain (lacks (receipt_handle_of 1)) two_messages.messages },
  has_handle (receipt_handle_of 1) two_messages.messages,
)
delete_message-eq-retain_example =
    delete_message-eq-retain (receipt_handle_of 1) two_messages two_messages-IsDistinct

change_visibility-eq-map_example : change_visibility (receipt_handle_of 3) 20 9 two_messages ≡ (
  record two_messages { messages = map (changed (receipt_handle_of 3) 20 9) two_messages.messages },
  has_handle (receipt_handle_of 3) two_messages.messages,
)
change_visibility-eq-map_example =
    change_visibility-eq-map (receipt_handle_of 3) 20 9 two_messages two_messages-IsDistinct

messages_for_dlq-remove_dlq_candidates_example :
    Perm
      (messages_for_dlq dead_queue +++ (remove_dlq_candidates dead_queue).messages)
      dead_queue.messages
    × All (λ m. 1 ≤ m.receive_count) (messages_for_dlq dead_queue)
    × All (λ m. m.receive_count < 1) (remove_dlq_candidates dead_queue).messages
messages_for_dlq-remove_dlq_candidates_example =
    messages_for_dlq-remove_dlq_candidates dead_queue
      (record { dead_letter_target_arn = "dead"; max_receive_count = 1 }) refl

abbrev first_store : SqsStore
first_store =
    (create_queue no_json 0 empty "orders" "http://localhost" "1" "us-east-1"
      (("DelaySeconds", "5") ∷ [])).0

create_queue_lem_example :
    (q : SqsQueue) × (created no_json 9 first_store "orders" "http://localhost" "1" "us-east-1"
        []).1
      ≡ some q
    × ((get_queue_by_name "orders" first_store ≡ some q)
        ⊎ ((get_queue_by_name "orders" first_store ≡ none)
            × (q
                ≡ fresh_queue no_json 9 first_store "orders" "http://localhost" "1" "us-east-1"
                    [])))
    × ((other : String)
        → get_queue_by_name other
            (created no_json 9 first_store "orders" "http://localhost" "1" "us-east-1" []).0
          ≡ (if "orders" == other then some q else get_queue_by_name other first_store))
create_queue_lem_example =
    create_queue_lem no_json 9 first_store "orders" "http://localhost" "1" "us-east-1" []

queue_name_from_url-url_example : queue_name_from_url (new_queue "orders.fifo").url ≡ "orders.fifo"
queue_name_from_url-url_example =
    queue_name_from_url-url 0 "orders.fifo" "http://localhost:4566" "000000000000" "us-east-1"
      (omega arith)

abbrev two_attributes : Dict String
two_attributes =
    ("Attribute.1.Name", "DelaySeconds")
    ∷ ("Attribute.1.Value", "5")
    ∷ ("Attribute.2.Name", "Policy")
    ∷ []

extract_loops_end_example :
    (entries 9 (name_value_at two_attributes "Attribute") 1
      ≡ all_entries two_attributes (name_value_at two_attributes "Attribute"))
    × (entries 9 (message_attribute_at two_attributes) 1
        ≡ all_entries two_attributes (message_attribute_at two_attributes))
extract_loops_end_example =
    extract_loops_end two_attributes "Attribute" 9 (omega arith) (omega arith)

escape_xml-IsFree_example :
    ((dst : String) → push_xml_escaped dst "<a&b>" ≡ dst ++ escape_xml "<a&b>")
    × ((t : ℕ) → IsMarkup t → IsFree t (escape_xml "<a&b>"))
escape_xml-IsFree_example = escape_xml-IsFree "<a&b>"

message_uuid_like-injective_example : ◌≡◌ {A = ℕ} 7 7
message_uuid_like-injective_example =
    message_uuid_like-injective 7 7 (omega arith) (omega arith) refl

-- A request to send to the queue `orders`.
abbrev request : RequestContext
request = record {
  service = "sqs";
  operation = "";
  region = "us-east-1";
  account_id = "111111111111";
  request_body = null;
  raw_body = none;
  headers = [];
  query_params = [];
}

abbrev send_params : Dict String
send_params =
    ("Action", "SendMessage")
    ∷ ("QueueUrl", "http://localhost/1/orders")
    ∷ ("MessageBody", "hi")
    ∷ []

abbrev two_tenants : SqsProvider
two_tenants = record {
  counters = record { message_ids = 0; request_ids = 0 };
  stores =
      write (write [] "111111111111" "us-east-1" first_store) "222222222222" "us-east-1"
        first_store;
}

accounts_differ : ◌≢◌ {A = String} "111111111111" "222222222222"
accounts_differ e = omega (arith, ap first_code e)

dispatch-other_example :
    stored
      (dispatch digest no_json 7 request send_params two_tenants).provider.stores
      "222222222222"
      "us-east-1"
    ≡ stored two_tenants.stores "222222222222" "us-east-1"
dispatch-other_example =
    dispatch-other digest no_json 7 request send_params two_tenants "222222222222" "us-east-1"
      (omega arith) (omega arith) (λ e. absurd (accounts_differ e))
