-- ===== src/Kinesis/Handlers.antt =====
-- crates/services/kinesis/src/provider.rs: what the arms of `dispatch` share. The children hold the arms,
-- one function for each: Management the streams and their shards, Records the puts and reads, Tags the
-- tags. `Utc::now()` is their argument `now`.
pub mod Management
pub mod Records
pub mod Tags
use openstack.Prelude.{
  ◌≡◌, ℕ, ◌+◌, ◌/◌, String, ◌++◌, Bool, true, false, Option, none, some, List, [], ◌∷◌, map, Dict,
  values, get, insert, remove, contains_key, length, take, drop, count_if, find_if, unwrap_or,
  is_some, if◌then◌else◌, ◌==◌,
}
use openstack.Framework.Json.{
  Json, null, num, str, bool, object, array, get_field, as_str, as_u64, as_array, as_object,
}
use openstack.Framework.Traits.{RequestContext, DispatchResponse}
use openstack.Framework.Service.{
  json_ok, json_error, member, str_param, signed, as_i64, timestamp, Operation, replies, reads,
  changes, updates, require, required,
}
use openstack.Kinesis.Store.{
  KinesisRecord, Shard, KinesisStream, KinesisStore, ShardIteratorState, new, as_str as status_text,
  parse,
}
use openstack.Kinesis.Shards.{
  Receipt, put, put_all, start_index, split, merge, add_tags, remove_tags,
}

-- What the provider takes from other crates: base64 and `serde_json` for the state of an iterator,
-- and the hash of `DefaultHasher`. `panicked` stands for a request whose handler panics: in a
-- release build, which aborts on a panic, it is no answer but the end of the process.
pub record Runtime : Type 0 where
  pub encode_base64 : String → String
  pub decode_base64 : String → Option String
  pub print_state : ShardIteratorState → String
  pub parse_state : String → Option ShardIteratorState
  pub hash_string : String → ℕ
  pub panicked : DispatchResponse

-- What base64 and `serde_json` document: what they encode, they decode.
pub record IsLawful (r : Runtime) : Type 0 where
  pub decode-encode : (s : String) → r.decode_base64 (r.encode_base64 s) ≡ some s
  pub parse-print : (st : ShardIteratorState) → r.parse_state (r.print_state st) ≡ some st

unfoldable pub encode_iterator : Runtime → ShardIteratorState → String
encode_iterator r st = r.encode_base64 (r.print_state st)

unfoldable pub decode_iterator : Runtime → String → Option ShardIteratorState
decode_iterator r token = elim (r.decode_base64 token) [
  | none ↦ none
  | some bytes ↦ r.parse_state bytes
]

abbrev pub or_null : Option String → Json
or_null none = null
or_null (some s) = str s

abbrev pub last_hash_key : String
last_hash_key = "340282366920938463463374607431768211455"

unfoldable pub shard_json : Shard → Json
shard_json shard = object (
    ("ShardId", str shard.shard_id)
    ∷ ("ParentShardId", or_null shard.parent_shard_id)
    ∷ ("AdjacentParentShardId", or_null shard.adjacent_parent_shard_id)
    ∷ (
      "HashKeyRange",
      object (("StartingHashKey", str "0") ∷ ("EndingHashKey", str last_hash_key) ∷ []),
    )
    ∷ ("SequenceNumberRange", object (("StartingSequenceNumber", str "1") ∷ []))
    ∷ [])

unfoldable pub record_json : KinesisRecord → Json
record_json r = object (
    ("SequenceNumber", str r.sequence_number)
    ∷ ("PartitionKey", str r.partition_key)
    ∷ ("Data", str r.data_)
    ∷ ("ApproximateArrivalTimestamp", num (timestamp r.approximate_arrival_timestamp))
    ∷ [])

unfoldable pub receipt_json : Receipt → Json
receipt_json (shard_id, number) =
    object (("ShardId", str shard_id) ∷ ("SequenceNumber", str number) ∷ [])

abbrev pub done : DispatchResponse
done = json_ok (object [])

abbrev pub not_found : String → DispatchResponse
not_found message = json_error "ResourceNotFoundException" message 400

abbrev pub stream_not_found : String → DispatchResponse
stream_not_found name = not_found ("Stream " ++ name ++ " not found")

abbrev pub arn_of : RequestContext → String → String
arn_of ctx name = "arn:aws:kinesis:" ++ ctx.region ++ ":" ++ ctx.account_id ++ ":stream/" ++ name

abbrev pub arn_not_found : RequestContext → String → DispatchResponse
arn_not_found ctx name = not_found ("Stream arn " ++ arn_of ctx name ++ " not found")

-- `store.streams.get(name)`, with the answer for a missing stream.
unfoldable pub of_stream :
    String → DispatchResponse → (KinesisStream → DispatchResponse) → KinesisStore → DispatchResponse
of_stream name absent f store = elim (get name store.streams) [ none ↦ absent | some s ↦ f s ]

-- `store.streams.get_mut(name)`: what the handler makes of the stream stands in its place.
unfoldable pub with_stream :
    String
    → DispatchResponse
    → (KinesisStream → KinesisStream × DispatchResponse)
    → KinesisStore
    → KinesisStore × DispatchResponse
with_stream name absent f store = elim (get name store.streams) [
  | none ↦ (store, absent)
  | some s ↦ let (s', r) = f s in (record store { streams = insert name s' store.streams }, r)
]

-- The changed stream and the answer, or the stream as it was and the refusal.
abbrev pub or_refuse :
    KinesisStream
    → DispatchResponse
    → Option (KinesisStream × DispatchResponse)
    → KinesisStream × DispatchResponse
or_refuse s refusal none = (s, refusal)
or_refuse s refusal (some answer) = answer

-- An arm that only reads a stream.
abbrev pub reads_stream : String → (KinesisStream → DispatchResponse) → Operation KinesisStore
reads_stream name f = reads (stream_not_found name) (of_stream name (stream_not_found name) f)
