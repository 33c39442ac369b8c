-- ===== src/Kinesis/Tests.antt =====
-- The stream service at concrete streams and requests.
mod Codec
use openstack.Prelude.{
  ◌/◌, drop, take, ◌+◌, true, get as map_get, ℕ, String, if◌then◌else◌, ◌≡◌, refl, Option, none,
  some, List, [], ◌∷◌, length, All, ◌<◌, ◌≤◌, arith, Holds,
}
use openstack.Framework.Json.{array, Json, num, str, object}
use openstack.Framework.Traits.{RequestContext, DispatchResponse}
use openstack.Framework.Service.{json_ok, str_param}
use openstack.Prelude.{modify_at, push, position}
use openstack.Prelude.Format.{dec_pad}
use openstack.State.Scoping.{new as key_new}
use openstack.State.Bundle.{lookup_key, AccountRegionBundle, get}
use openstack.Kinesis.Store.{
  parse, active, new_shard, next_sequence_number, active, KinesisRecord, Shard, KinesisStream,
  KinesisStore, ShardIteratorState, new, id_text, at_sequence_number, after_sequence_number,
}
use openstack.Kinesis.Shards.{put, append_record, split, start_index, add_tags}
use openstack.Kinesis.Handlers.{Runtime, IsLawful, done, encode_iterator}
use openstack.Kinesis.Handlers.Records.{put_in, read_from, find_shard, records_answer}
use openstack.Kinesis.Handlers.Management.{split_in}
use openstack.Kinesis.Provider.{dispatch}
use openstack.Kinesis.Invariant.{IsSequenced, IsWellFormed}
use openstack.Kinesis.Invariant.Requests.{IsSound, after, after-IsWellFormed}
use openstack.Kinesis.Invariant.Tags.{add_tags-get}
use openstack.Kinesis.Reading.{start_index-sequence}
use mathlib.Core.List.{map, ◌++◌}
use openstack.Kinesis.Reading.Consumer.{
  Has, apply, Event, changed, reads_next, puts_one, splits, consume, consume-front,
}
use openstack.Kinesis.Reading.Tokens.{limit_of, Stands, get_shard_iterator-get_records}
use openstack.Kinesis.Tests.Codec.{runtime, runtime-IsLawful}

abbrev request : String → List (String × Json) → RequestContext
request operation fs = record {
  service = "kinesis";
  operation = operation;
  region = "us-east-1";
  account_id = "000000000000";
  request_body = object fs;
  raw_body = none;
  headers = [];
  query_params = [];
}

abbrev stream : String × Json
stream = ("StreamName", str "events")

abbrev creation : RequestContext
creation = request "CreateStream" (stream ∷ [])

abbrev put_a : RequestContext
put_a = request "PutRecord" (stream ∷ ("PartitionKey", str "a") ∷ ("Data", str "AA==") ∷ [])

after-IsWellFormed_example :
    All
      (λ e. IsSound e.1)
      (after runtime
        ((1, creation)
          ∷ (2, put_a)
          ∷ (3, request "SplitShard" (stream ∷ ("ShardToSplit", str "shardId-000000000000") ∷ []))
          ∷ (4, put_a)
          ∷ [])
        [])
after-IsWellFormed_example = after-IsWellFormed runtime (
    (1, creation)
    ∷ (2, put_a)
    ∷ (3, request "SplitShard" (stream ∷ ("ShardToSplit", str "shardId-000000000000") ∷ []))
    ∷ (4, put_a)
    ∷ [])

abbrev row : String → String → KinesisRecord
row number data_ = record {
  sequence_number = number;
  partition_key = "a";
  data_ = data_;
  approximate_arrival_timestamp = 0;
}

abbrev first_row : KinesisRecord
first_row = row "0000000000000000000000000000000000000000000000001" "AA=="

abbrev second_row : KinesisRecord
second_row = row "0000000000000000000000000000000000000000000000002" "AQ=="

abbrev shard : Shard
shard = record {
  shard_id = "shardId-000000000000";
  records = first_row ∷ second_row ∷ [];
  sequence_counter = 2;
  is_open = true;
  parent_shard_id = none;
  adjacent_parent_shard_id = none;
}

shard-IsSequenced : IsSequenced shard
unfolding dec_pad
shard-IsSequenced = record { numbered = (refl, (refl, tt)); counted = refl }

start_index-sequence_example :
    (start_index at_sequence_number second_row.sequence_number shard.records ≡ 1)
    × (start_index after_sequence_number second_row.sequence_number shard.records ≡ 1 + 1)
start_index-sequence_example =
    start_index-sequence shard 1 second_row shard-IsSequenced (omega arith) refl

abbrev events : KinesisStream
events = record {
  stream_name = "events";
  stream_arn = "arn:aws:kinesis:us-east-1:000000000000:stream/events";
  status = active;
  shard_count = 1;
  retention_period_hours = 24;
  created = 0;
  shards = shard ∷ [];
  shard_id_counter = 1;
  tags = [];
}

abbrev schedule : List Event
schedule =
    reads_next 1
    ∷ changed (puts_one 3 "a" "Ag==")
    ∷ changed (splits "shardId-000000000000")
    ∷ reads_next 5
    ∷ []

consume-front_example :
    Has "shardId-000000000000" 2
      (consume runtime "shardId-000000000000" schedule events 0).1.shards
      (consume runtime "shardId-000000000000" schedule events 0).0
      (consume runtime "shardId-000000000000" (schedule ++ (reads_next 2 ∷ [])) events 0).0
unfolding find_shard
consume-front_example = consume-front runtime "shardId-000000000000" schedule events 2 shard refl

-- The consumer of the witness receives all three records.
consume_test : length (consume runtime "shardId-000000000000" schedule events 0).0 ≡ 3
unfolding consume find_shard runtime apply put_in put modify_at append_record next_sequence_number
    split_in split position push new_shard read_from
consume_test = refl

add_tags-get_example :
    (s' : KinesisStream) × (add_tags
        (("env", str "dev") ∷ ("team", num 3) ∷ ("env", str "test") ∷ [])
        events
      ≡ some s')
    × (map_get "env" s'.tags ≡ some "test")
    × (length s'.tags ≤ 50)
    × (s'.shards ≡ events.shards)
unfolding map_get
add_tags-get_example =
    add_tags-get (("env", str "dev") ∷ ("team", num 3) ∷ ("env", str "test") ∷ []) events "env"
      (omega arith)

abbrev store : KinesisStore
store = record { streams = ("events", events) ∷ []; shard_iterators = [] }

abbrev stores : AccountRegionBundle KinesisStore
stores = (key_new "000000000000" "us-east-1", store) ∷ []

stands : Stands store "events" "shardId-000000000000" shard
unfolding find_shard map_get
stands = record { stream = events; stream_found = refl; shard_found = refl }

abbrev state : ShardIteratorState
state = record { stream_name = "events"; shard_id = "shardId-000000000000"; next_index = 1 }

abbrev for_iterator : RequestContext
for_iterator = request "GetShardIterator" (
    stream
    ∷ ("ShardId", str "shardId-000000000000")
    ∷ ("ShardIteratorType", str "AT_SEQUENCE_NUMBER")
    ∷ ("StartingSequenceNumber", str second_row.sequence_number)
    ∷ [])

abbrev for_records : RequestContext
for_records = request "GetRecords" (
    ("ShardIterator", str (runtime.encode_base64 (runtime.print_state state)))
    ∷ ("Limit", num 1)
    ∷ [])

get_shard_iterator-get_records_example :
    let batch : List KinesisRecord = take (limit_of for_records) (drop 1 shard.records) in
    let behind : ShardIteratorState = record {
      stream_name = "events";
      shard_id = "shardId-000000000000";
      next_index = 1 + length batch;
    } in
    ((dispatch runtime 1 for_iterator stores).1
      ≡ json_ok (
          object (("ShardIterator", str (runtime.encode_base64 (runtime.print_state state))) ∷ [])))
    × ((dispatch runtime 2 for_records stores).1
        ≡ json_ok (
            object (
              (
                "Records",
                array (
                    map
                      (λ rec. object (
                        ("SequenceNumber", str rec.sequence_number)
                        ∷ ("PartitionKey", str rec.partition_key)
                        ∷ ("Data", str rec.data_)
                        ∷ (
                          "ApproximateArrivalTimestamp",
                          num (rec.approximate_arrival_timestamp / 1000000000),
                        )
                        ∷ []))
                      batch),
              )
              ∷ ("NextShardIterator", str (runtime.encode_base64 (runtime.print_state behind)))
              ∷ ("MillisBehindLatest", num 0)
              ∷ [])))
unfolding str_param get start_index map_get key_new lookup_key parse
get_shard_iterator-get_records_example =
    get_shard_iterator-get_records runtime 1 2 for_iterator for_records stores stores store store
      "events" "shardId-000000000000" shard shard runtime-IsLawful refl refl refl refl stands refl
      refl stands state refl refl
