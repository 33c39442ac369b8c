-- ===== src/Kinesis/Handlers/Management.antt =====
-- crates/services/kinesis/src/provider.rs: the arms that manage streams, their retention and their
-- shards.
use openstack.Prelude.{
  ℕ, String, ◌++◌, false, none, some, List, [], ◌∷◌, map, values, insert, remove, contains_key,
  count_if, unwrap_or, if◌then◌else◌,
}
use openstack.Framework.Json.{Json, null, num, str, bool, object, array, as_u64}
use openstack.Framework.Traits.{RequestContext, DispatchResponse}
use openstack.Framework.Service.{
  json_ok, json_error, member, str_param, signed, as_i64, timestamp, Operation, reads, changes,
  required,
}
use openstack.Kinesis.Store.{KinesisStream, KinesisStore, new, as_str as status_text}
use openstack.Kinesis.Shards.{split, merge}
use openstack.Kinesis.Handlers.{
  shard_json, done, not_found, stream_not_found, arn_of, arn_not_found, with_stream, reads_stream,
}

-- A new stream, unless one has the name.
unfoldable pub create_in : String → KinesisStream → KinesisStore → KinesisStore × DispatchResponse
create_in name stream store =
    if contains_key name store.streams
    then (store, json_error "ResourceInUseException" ("Stream " ++ name ++ " already exists") 400)
    else (record store { streams = insert name stream store.streams }, done)

unfoldable pub create_stream : ℕ → RequestContext → Operation KinesisStore
unfolding create_in member
create_stream now ctx = required ctx "StreamName" (λ name.
    let count = unwrap_or (member as_u64 "ShardCount" ctx.request_body) 1 in
    changes (create_in name (new name (arn_of ctx name) count now)))

unfoldable pub delete_in : String → KinesisStore → KinesisStore × DispatchResponse
delete_in name store =
    if contains_key name store.streams
    then (record store { streams = remove name store.streams }, done)
    else (store, stream_not_found name)

unfoldable pub delete_stream : RequestContext → Operation KinesisStore
unfolding delete_in
delete_stream ctx = required ctx "StreamName" (λ name. changes (delete_in name))

-- What the two descriptions of a stream say alike, before `middle` and the monitoring.
description : KinesisStream → List (String × Json) → Json
unfolding status_text
description s middle = object (
    ("StreamName", str s.stream_name)
    ∷ ("StreamARN", str s.stream_arn)
    ∷ ("StreamStatus", str (status_text s.status))
    ∷ ("StreamCreationTimestamp", num (timestamp s.created))
    ∷ ("RetentionPeriodHours", signed s.retention_period_hours)
    ∷ middle)

unfoldable pub describe_stream : RequestContext → Operation KinesisStore
unfolding description shard_json
describe_stream ctx = required ctx "StreamName" (λ name. reads_stream name (λ s. json_ok (
    object (
      (
        "StreamDescription",
        description s (
            ("Shards", array (map shard_json s.shards))
            ∷ ("HasMoreShards", bool false)
            ∷ ("EnhancedMonitoring", array [])
            ∷ []),
      )
      ∷ []))))

unfoldable pub describe_stream_summary : RequestContext → Operation KinesisStore
unfolding description
describe_stream_summary ctx = required ctx "StreamName" (λ name. reads_stream name (λ s. json_ok (
    object (
      (
        "StreamDescriptionSummary",
        description s (
            ("OpenShardCount", num (count_if (λ shard. shard.is_open) s.shards))
            ∷ ("EnhancedMonitoring", array [])
            ∷ []),
      )
      ∷ []))))

names_answer : List Json → DispatchResponse
names_answer names =
    json_ok (object (("StreamNames", array names) ∷ ("HasMoreStreams", bool false) ∷ []))

unfoldable pub list_streams : Operation KinesisStore
unfolding names_answer
list_streams =
    reads (names_answer [])
      (λ store. names_answer (map (λ s. str s.stream_name) (values store.streams)))

unfoldable pub list_shards : RequestContext → Operation KinesisStore
unfolding shard_json
list_shards ctx = required ctx "StreamName" (λ name. reads_stream name (λ s.
    json_ok (object (("Shards", array (map shard_json s.shards)) ∷ ("NextToken", null) ∷ []))))

-- `s.retention_period_hours = hours`, whatever it was before.
abbrev set_retention : ℕ → KinesisStream → KinesisStream × DispatchResponse
set_retention hours s = (record s { retention_period_hours = hours }, done)

abbrev hours_of : RequestContext → ℕ
hours_of ctx = unwrap_or (member as_i64 "RetentionPeriodHours" ctx.request_body) 24

unfoldable pub increase_retention : RequestContext → Operation KinesisStore
increase_retention ctx =
    required ctx "StreamName"
      (λ name. changes (with_stream name (arn_not_found ctx name) (set_retention (hours_of ctx))))

unfoldable pub decrease_retention : RequestContext → Operation KinesisStore
decrease_retention ctx =
    required ctx "StreamName"
      (λ name. changes (with_stream name (stream_not_found name) (set_retention (hours_of ctx))))

unfoldable pub split_in : String → KinesisStream → KinesisStream × DispatchResponse
split_in id s = elim (split id s) [
  | none ↦ (s, not_found ("Shard " ++ id ++ " not found"))
  | some s' ↦ (s', done)
]

unfoldable pub split_shard : RequestContext → Operation KinesisStore
unfolding split_in
split_shard ctx = required ctx "StreamName" (λ name.
    required ctx "ShardToSplit"
      (λ id. changes (with_stream name (stream_not_found name) (split_in id))))

abbrev pub merge_in : String → String → KinesisStream → KinesisStream × DispatchResponse
merge_in a b s = (merge a b s, done)

unfoldable pub merge_shards : RequestContext → Operation KinesisStore
merge_shards ctx = required ctx "StreamName" (λ name.
    let a = unwrap_or (str_param ctx "ShardToMerge") "" in
    let b = unwrap_or (str_param ctx "AdjacentShardToMerge") "" in
    changes (with_stream name (stream_not_found name) (merge_in a b)))
