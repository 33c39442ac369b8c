-- ===== src/Kinesis/Shards.antt =====
-- crates/services/kinesis/src/provider.rs: what the operations do to the one stream they find. The
-- hash of a partition key is a parameter, the standard library's `DefaultHasher`.
use openstack.Prelude.{
  ℕ, ◌+◌, ◌%◌, ◌^◌, String, ◌==◌, false, not, ◌||◌, Option, none, some, List, [], ◌∷◌, Dict, insert,
  remove, contains_key, length, push, get_elem?, modify_at, position, count_if, unwrap_or, ltb,
  if◌then◌else◌,
}
use openstack.Framework.Json.{Json, as_str}
use openstack.Kinesis.Store.{
  KinesisRecord, Shard, KinesisStream, new_shard, next_sequence_number, id_text, ShardIteratorType,
  trim_horizon, latest, at_sequence_number, after_sequence_number, at_timestamp,
}

-- The id and the sequence number that a put answers with.
abbrev pub Receipt : Type 0
Receipt = String × String

-- The next number of the shard, and the record under it behind the others.
unfoldable pub append_record : ℕ → String → String → Shard → Shard
unfolding next_sequence_number
append_record now key data_ shard =
    let (numbered, number) = next_sequence_number shard in
    record numbered {
      records = push numbered.records record {
        sequence_number = number;
        partition_key = key;
        data_ = data_;
        approximate_arrival_timestamp = now;
      };
    }

unfoldable pub receipt : Shard → Receipt
unfolding next_sequence_number
receipt shard = (shard.shard_id, (next_sequence_number shard).1)

-- A record is put to the shard that its key's hash chooses among all shards; `none` where there is no
-- shard to choose.
unfoldable pub put :
    (String → ℕ) → ℕ → String → String → KinesisStream → Option (KinesisStream × Receipt)
unfolding append_record
put hash_string now key data_ s =
    let i = hash_string key % length s.shards in
    elim (get_elem? s.shards i) [
      | none ↦ none
      | some shard ↦
          some (
            record s { shards = modify_at i (append_record now key data_) s.shards },
            receipt shard,
          )
    ]

-- The loop of `PutRecords`, over the keys and data of its records. `none` is the panic of the
-- remainder by zero, where the stream has no shards.
unfoldable pub put_all :
    (String → ℕ)
    → ℕ
    → List (String × String)
    → KinesisStream
    → Option (KinesisStream × List Receipt)
unfolding put
put_all hash_string now [] s = some (s, [])
put_all hash_string now ((key, data_) ∷ rest) s = elim (put hash_string now key data_ s) [
  | none ↦ none
  | some (s', r) ↦ elim (put_all hash_string now rest s') [
    | none ↦ none
    | some (s'', rs) ↦ some (s'', r ∷ rs)
  ]
]

-- Where an iterator starts among the records of its shard.
unfoldable pub start_index : ShardIteratorType → String → List KinesisRecord → ℕ
unfolding position
start_index trim_horizon starting records = 0
start_index latest starting records = length records
start_index at_sequence_number starting records =
    unwrap_or (position (λ r. r.sequence_number == starting) records) (length records)
start_index after_sequence_number starting records =
    elim (position (λ r. r.sequence_number == starting) records) [
      | none ↦ length records
      | some i ↦ i + 1
    ]
start_index at_timestamp starting records = 0

abbrev pub close : Shard → Shard
close shard = record shard { is_open = false }

abbrev pub child_of : Option String → Option String → ℕ → Shard
child_of parent adjacent i = record (new_shard (id_text i)) {
  parent_shard_id = parent;
  adjacent_parent_shard_id = adjacent;
}

-- `shard_count` is counted anew.
abbrev pub recount : KinesisStream → KinesisStream
recount s = record s { shard_count = count_if (λ shard. shard.is_open) s.shards }

-- The shard to split is closed, and two children follow; `none` where no shard has the id.
unfoldable pub split : String → KinesisStream → Option KinesisStream
unfolding position
split id s = elim (position (λ shard. shard.shard_id == id) s.shards) [
  | none ↦ none
  | some i ↦
      let closed = modify_at i close s.shards in
      let first = push closed (child_of (some id) none s.shard_id_counter) in
      let second = push first (child_of (some id) none (s.shard_id_counter + 1)) in
      some
        (recount record s { shard_id_counter = (s.shard_id_counter + 2) % 2 ^ 64; shards = second })
]

unfoldable pub close_named : String → String → List Shard → List Shard
close_named a b [] = []
close_named a b (shard ∷ shards) =
    let rest = close_named a b shards in
    if shard.shard_id == a || shard.shard_id == b then close shard ∷ rest else shard ∷ rest

-- The shards of the two ids are closed, and one child follows.
unfoldable pub merge : String → String → KinesisStream → KinesisStream
unfolding close_named
merge a b s = recount record s {
  shard_id_counter = (s.shard_id_counter + 1) % 2 ^ 64;
  shards = push (close_named a b s.shards) (child_of (some a) (some b) s.shard_id_counter);
}

-- The keys that the tags do not have yet.
unfoldable pub new_key_count : Dict String → List (String × Json) → ℕ
new_key_count tags fs = count_if (λ f. not (contains_key f.0 tags)) fs

-- Only values that are strings become tags.
unfoldable pub insert_tags : List (String × Json) → Dict String → Dict String
insert_tags [] tags = tags
insert_tags ((k, v) ∷ fs) tags = elim (as_str v) [
  | none ↦ insert_tags fs tags
  | some val ↦ insert_tags fs (insert k val tags)
]

-- `none` where the stream would have more than fifty tags.
unfoldable pub add_tags : List (String × Json) → KinesisStream → Option KinesisStream
unfolding new_key_count insert_tags
add_tags fs s =
    if ltb 50 (length s.tags + new_key_count s.tags fs)
    then none
    else some record s { tags = insert_tags fs s.tags }

unfoldable pub remove_tags : List Json → Dict String → Dict String
remove_tags [] tags = tags
remove_tags (k ∷ ks) tags = elim (as_str k) [
  | none ↦ remove_tags ks tags
  | some key ↦ remove_tags ks (remove key tags)
]
