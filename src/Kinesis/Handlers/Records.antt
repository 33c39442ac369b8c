-- ===== src/Kinesis/Handlers/Records.antt =====
-- crates/services/kinesis/src/provider.rs: the arms that put records, make iterators and read with them.
use openstack.Prelude.{
  ℕ, ◌+◌, String, ◌++◌, Option, none, some, List, [], ◌∷◌, map, length, take, drop, find_if,
  unwrap_or, ◌==◌,
}
use openstack.Framework.Json.{Json, num, str, object, array, as_str, as_u64, as_array}
use openstack.Framework.Traits.{RequestContext, DispatchResponse}
use openstack.Framework.Service.{
  json_ok, json_error, member, str_param, Operation, replies, changes, required,
}
use openstack.Kinesis.Store.{
  KinesisRecord, Shard, KinesisStream, KinesisStore, ShardIteratorState, ShardIteratorType, parse,
}
use openstack.Kinesis.Shards.{put, put_all, start_index}
use openstack.Kinesis.Handlers.{
  Runtime, encode_iterator, decode_iterator, record_json, receipt_json, not_found, stream_not_found,
  arn_not_found, with_stream, of_stream, reads_stream,
}

-- A stream without shards is refused.
unfoldable pub put_in :
    (String → ℕ) → ℕ → String → String → KinesisStream → KinesisStream × DispatchResponse
unfolding receipt_json
put_in hash_string now key data_ s = elim (put hash_string now key data_ s) [
  | none ↦ (s, not_found "No shards available")
  | some (s', r) ↦ (s', json_ok (receipt_json r))
]

unfoldable pub put_record : Runtime → ℕ → RequestContext → Operation KinesisStore
unfolding put_in
put_record r now ctx = required ctx "StreamName" (λ name.
    let key = unwrap_or (str_param ctx "PartitionKey") "" in
    let data_ = unwrap_or (str_param ctx "Data") "" in
    changes (with_stream name (arn_not_found ctx name) (put_in r.hash_string now key data_)))

-- The key and the data of an entry of "Records".
unfoldable pub entry : Json → String × String
unfolding member
entry rec =
    (unwrap_or (member as_str "PartitionKey" rec) "", unwrap_or (member as_str "Data" rec) "")

unfoldable pub put_all_in :
    Runtime → ℕ → List (String × String) → KinesisStream → KinesisStream × DispatchResponse
unfolding receipt_json
put_all_in r now entries s = elim (put_all r.hash_string now entries s) [
  | none ↦ (s, r.panicked)
  | some (s', receipts) ↦ (
    s',
    json_ok (
        object
          (("FailedRecordCount", num 0) ∷ ("Records", array (map receipt_json receipts)) ∷ [])),
  )
]

unfoldable pub put_records : Runtime → ℕ → RequestContext → Operation KinesisStore
unfolding put_all_in entry
put_records r now ctx = required ctx "StreamName" (λ name.
    elim (member as_array "Records" ctx.request_body) [
      | none ↦ replies (json_error "ValidationException" "Records is required" 400)
      | some records ↦
          changes (with_stream name (stream_not_found name) (put_all_in r now (map entry records)))
    ])

abbrev pub shard_not_found : String → DispatchResponse
shard_not_found id = not_found ("Shard " ++ id ++ " not found")

unfoldable pub find_shard : String → List Shard → Option Shard
find_shard id shards = find_if (λ shard. shard.shard_id == id) shards

-- The shard with the id, with the answer where there is none.
unfoldable pub of_shard : String → (Shard → DispatchResponse) → KinesisStream → DispatchResponse
unfolding find_shard
of_shard id f s = elim (find_shard id s.shards) [ none ↦ shard_not_found id | some shard ↦ f shard ]

unfoldable pub iterator_answer :
    Runtime → String → String → ShardIteratorType → String → Shard → DispatchResponse
unfolding encode_iterator start_index
iterator_answer r name id type_ starting shard =
    let state : ShardIteratorState = record {
      stream_name = name;
      shard_id = id;
      next_index = start_index type_ starting shard.records;
    } in
    json_ok (object (("ShardIterator", str (encode_iterator r state)) ∷ []))

unfoldable pub get_shard_iterator : Runtime → RequestContext → Operation KinesisStore
unfolding of_stream of_shard iterator_answer parse
get_shard_iterator r ctx = required ctx "StreamName" (λ name. required ctx "ShardId" (λ id.
    let type_ = parse (unwrap_or (str_param ctx "ShardIteratorType") "TRIM_HORIZON") in
    let starting = unwrap_or (str_param ctx "StartingSequenceNumber") "" in
    reads_stream name (of_shard id (iterator_answer r name id type_ starting))))

-- The records behind the iterator, at most `limit`, and where the next iterator stands.
unfoldable pub read_from : ℕ → ℕ → List KinesisRecord → List KinesisRecord × ℕ
read_from next_index limit records =
    let batch = take limit (drop next_index records) in (batch, next_index + length batch)

unfoldable pub records_answer : Runtime → ℕ → ShardIteratorState → Shard → DispatchResponse
unfolding read_from record_json encode_iterator
records_answer r limit state shard =
    let (batch, next) = read_from state.next_index limit shard.records in
    json_ok (
      object (
        ("Records", array (map record_json batch))
        ∷ ("NextShardIterator", str (encode_iterator r (record state { next_index = next })))
        ∷ ("MillisBehindLatest", num 0)
        ∷ []))

unfoldable pub get_records : Runtime → RequestContext → Operation KinesisStore
unfolding of_stream of_shard records_answer decode_iterator
get_records r ctx = required ctx "ShardIterator" (λ token.
    let limit = unwrap_or (member as_u64 "Limit" ctx.request_body) 10000 in
    elim (decode_iterator r token) [
      | none ↦ replies (json_error "InvalidArgumentException" "Invalid ShardIterator" 400)
      | some state ↦
          reads_stream state.stream_name (of_shard state.shard_id (records_answer r limit state))
    ])
