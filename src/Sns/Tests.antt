-- ===== src/Sns/Tests.antt =====
-- The topic service at a concrete topic, its subscription and its policy.
use openstack.Prelude.{◌++◌, String, ◌≡◌, ◌↔◌, true, none, some, List, [], ◌∷◌, Dict}
use openstack.Framework.Json.{str, num}
use openstack.Sns.Store.{FilterPolicy, MessageAttribute, empty, matches, sqs}
use openstack.Sns.Topics.{
  Change, creates, deletes, subscribes, sets_topic, sets_subscription, run, IsSound, run-IsSound,
}
use openstack.Sns.Filters.{Passes, matches_iff}

abbrev policy : FilterPolicy
policy = ("color", str "red" ∷ num 7 ∷ str "blue" ∷ []) ∷ []

abbrev attributes : Dict MessageAttribute
attributes =
    ("color", record { data_type = "String"; string_value = some "blue"; binary_value = none }) ∷ []

matches_iff_example : (matches policy attributes ≡ true) ↔ Passes policy attributes
matches_iff_example = matches_iff policy attributes

abbrev orders : String
orders = "arn:aws:sns:us-east-1:000000000000:orders"

abbrev changes : List Change
changes =
    creates 1 "orders" "000000000000" "us-east-1" []
    ∷ subscribes 2 "s1" orders sqs "arn:aws:sqs:us-east-1:000000000000:q" "000000000000"
    ∷ sets_subscription (orders ++ ":s1") "RawMessageDelivery" "true"
    ∷ sets_topic orders "DisplayName" "Orders"
    ∷ deletes orders
    ∷ []

run-IsSound_example : IsSound (run (λ text. none) changes empty)
run-IsSound_example = run-IsSound (λ text. none) changes
