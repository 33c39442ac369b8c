-- ===== src/Kinesis/Store.antt =====
-- crates/services/kinesis/src/store.rs: records, shards, streams and the store of one account and
-- region. A `DateTime<Utc>` is a number of nanoseconds, an `i64` its bit pattern, and a counter a
-- number below 2 ^ 64 that wraps.
use openstack.Prelude.{
  ℕ, zero, suc, ◌+◌, ◌%◌, ◌^◌, String, ◌++◌, ◌==◌, Bool, true, Option, none, List, [], ◌∷◌, Dict,
  if◌then◌else◌,
}
use openstack.Prelude.Format.{dec_pad}

pub data ShardIteratorType : Type 0 where
  trim_horizon : ShardIteratorType
  latest : ShardIteratorType
  at_sequence_number : ShardIteratorType
  after_sequence_number : ShardIteratorType
  at_timestamp : ShardIteratorType

-- `ShardIteratorType::parse`, which never fails.
unfoldable pub parse : String → ShardIteratorType
parse s =
    if s == "LATEST"
    then latest
    else if s == "AT_SEQUENCE_NUMBER"
    then at_sequence_number
    else if s == "AFTER_SEQUENCE_NUMBER"
    then after_sequence_number
    else if s == "AT_TIMESTAMP"
    then at_timestamp
    else trim_horizon

pub record KinesisRecord : Type 0 where
  pub sequence_number : String
  pub partition_key : String
  pub data_ : String
  pub approximate_arrival_timestamp : ℕ

pub record Shard : Type 0 where
  pub shard_id : String
  pub records : List KinesisRecord
  pub sequence_counter : ℕ
  pub is_open : Bool
  pub parent_shard_id : Option String
  pub adjacent_parent_shard_id : Option String

-- `Shard::new`.
unfoldable pub new_shard : String → Shard
new_shard id = record {
  shard_id = id;
  records = [];
  sequence_counter = 0;
  is_open = true;
  parent_shard_id = none;
  adjacent_parent_shard_id = none;
}

abbrev pub sequence_text : ℕ → String
sequence_text n = dec_pad 49 n

unfoldable pub next_sequence_number : Shard → Shard × String
next_sequence_number s =
    let counter = (s.sequence_counter + 1) % 2 ^ 64 in
    (record s { sequence_counter = counter }, sequence_text counter)

pub data StreamStatus : Type 0 where
  creating : StreamStatus
  active : StreamStatus
  updating : StreamStatus
  deleting : StreamStatus

unfoldable pub as_str : StreamStatus → String
as_str creating = "CREATING"
as_str active = "ACTIVE"
as_str updating = "UPDATING"
as_str deleting = "DELETING"

pub record KinesisStream : Type 0 where
  pub stream_name : String
  pub stream_arn : String
  pub status : StreamStatus
  pub shard_count : ℕ
  pub retention_period_hours : ℕ
  pub created : ℕ
  pub shards : List Shard
  pub shard_id_counter : ℕ
  pub tags : Dict String

-- The id of the shard that the counter makes at `i`.
unfoldable pub id_text : ℕ → String
id_text i = "shardId-" ++ dec_pad 12 (i % 2 ^ 64)

-- The loop of `KinesisStream::new`: `n` shards, the first of them at `i`.
unfoldable pub new_shards : ℕ → ℕ → List Shard
new_shards i zero = []
new_shards i (suc n) = new_shard (id_text i) ∷ new_shards (suc i) n

-- `KinesisStream::new`, `now` being `Utc::now()`.
unfoldable pub new : String → String → ℕ → ℕ → KinesisStream
new name arn count now = record {
  stream_name = name;
  stream_arn = arn;
  status = active;
  shard_count = count;
  retention_period_hours = 24;
  created = now;
  shards = new_shards 0 count;
  shard_id_counter = count % 2 ^ 64;
  tags = [];
}

pub record ShardIteratorState : Type 0 where
  pub stream_name : String
  pub shard_id : String
  pub next_index : ℕ

pub record KinesisStore : Type 0 where
  pub streams : Dict KinesisStream
  pub shard_iterators : Dict ShardIteratorState

-- `KinesisStore::new`.
abbrev pub empty : KinesisStore
empty = record { streams = []; shard_iterators = [] }
