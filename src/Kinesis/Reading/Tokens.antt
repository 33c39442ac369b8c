-- ===== src/Kinesis/Reading/Tokens.antt =====
-- The tokens of iterators, from the request that makes one to the request that reads with it
-- (crates/services/kinesis/src/provider.rs).
use openstack.Prelude.{
  subst, ℕ, ◌+◌, ◌/◌, List, map, take, drop, length, String, ◌≡◌, refl, sym, ap, ◌∙◌, some, [], ◌∷◌,
  unwrap_or, get as map_get,
}
use openstack.Framework.Json.{object, array, num, str, as_u64}
use openstack.Framework.Traits.{RequestContext, DispatchResponse}
use openstack.Framework.Service.{json_ok, str_param, member, perform, route}
use openstack.Framework.Service.Laws.{perform-reads, required-some}
use openstack.State.Bundle.{AccountRegionBundle, get}
use openstack.Kinesis.Store.{
  KinesisRecord, Shard, KinesisStream, KinesisStore, ShardIteratorState, ShardIteratorType, parse,
  empty,
}
use openstack.Kinesis.Shards.{start_index}
use openstack.Kinesis.Handlers.{
  Runtime, IsLawful, encode_iterator, decode_iterator, record_json, of_stream, reads_stream,
}
use openstack.Kinesis.Handlers.Records.{
  find_shard, of_shard, iterator_answer, get_shard_iterator, records_answer, get_records,
}
use openstack.Kinesis.Provider.{dispatch, arm, arms}

pub decode_iterator-encode_iterator :
    (r : Runtime) (state : ShardIteratorState)
    → IsLawful r
    → decode_iterator r (encode_iterator r state) ≡ some state
unfolding decode_iterator encode_iterator
decode_iterator-encode_iterator r state law =
    rw (law.decode-encode (r.print_state state), decode_iterator) (law.parse-print state)

-- The shard of a stream of a store.
pub record Stands (store : KinesisStore) (name id : String) (shard : Shard) : Type 0 where
  pub stream : KinesisStream
  pub stream_found : map_get name store.streams ≡ some stream
  pub shard_found : find_shard id stream.shards ≡ some shard

of_stream-Stands :
    (store : KinesisStore) (name id : String) (shard : Shard) (absent : DispatchResponse)
    (f : Shard → DispatchResponse)
    → Stands store name id shard
    → of_stream name absent (of_shard id f) store ≡ f shard
unfolding of_stream of_shard
of_stream-Stands store name id shard absent f h =
    rw (h.stream_found, of_stream, h.shard_found, of_shard) refl

arm-get_records :
    (r : Runtime) (now : ℕ) (ctx : RequestContext)
    → ctx.operation ≡ "GetRecords"
    → arm r now ctx ≡ get_records r ctx
unfolding arm arms route
arm-get_records r now ctx op = rw (op, arm, route) refl

arm-get_shard_iterator :
    (r : Runtime) (now : ℕ) (ctx : RequestContext)
    → ctx.operation ≡ "GetShardIterator"
    → arm r now ctx ≡ get_shard_iterator r ctx
unfolding arm arms route
arm-get_shard_iterator r now ctx op = rw (op, arm, route) refl

-- `Limit`, or 10000.
abbrev pub limit_of : RequestContext → ℕ
limit_of ctx = unwrap_or (member as_u64 "Limit" ctx.request_body) 10000

get_records-eq :
    (r : Runtime) (ctx : RequestContext) (state : ShardIteratorState)
    → IsLawful r
    → str_param ctx "ShardIterator" ≡ some (encode_iterator r state)
    → get_records r ctx
      ≡ reads_stream state.stream_name
          (of_shard state.shard_id (records_answer r (limit_of ctx) state))
unfolding get_records
get_records-eq r ctx state law token =
    required-some ctx "ShardIterator" _ _ token
    ∙ rw (decode_iterator-encode_iterator r state law) refl

-- The type of an iterator that a request asks for, and the number it starts from.
abbrev pub type_of : RequestContext → ShardIteratorType
type_of ctx = parse (unwrap_or (str_param ctx "ShardIteratorType") "TRIM_HORIZON")

abbrev pub starting_of : RequestContext → String
starting_of ctx = unwrap_or (str_param ctx "StartingSequenceNumber") ""

get_shard_iterator-eq :
    (r : Runtime) (ctx : RequestContext) (name id : String)
    → str_param ctx "StreamName" ≡ some name
    → str_param ctx "ShardId" ≡ some id
    → get_shard_iterator r ctx
      ≡ reads_stream name (of_shard id (iterator_answer r name id (type_of ctx) (starting_of ctx)))
unfolding get_shard_iterator
get_shard_iterator-eq r ctx name id e q =
    required-some ctx "StreamName" name _ e ∙ required-some ctx "ShardId" id _ q

-- The answer with the token of a state.
abbrev token_answer : Runtime → ShardIteratorState → DispatchResponse
token_answer r state =
    json_ok (object (("ShardIterator", str (r.encode_base64 (r.print_state state))) ∷ []))

-- The operation that an arm turns out to be answers from the shard.
reads_stream-answer :
    (r : Runtime) (now : ℕ) (ctx : RequestContext) (stores : AccountRegionBundle KinesisStore)
    (store : KinesisStore) (name id : String) (shard : Shard) (f : Shard → DispatchResponse)
    → get stores ctx.account_id ctx.region ≡ some store
    → Stands store name id shard
    → arm r now ctx ≡ reads_stream name (of_shard id f)
    → (dispatch r now ctx stores).1 ≡ f shard
unfolding dispatch
reads_stream-answer r now ctx stores store name id shard f own h e =
    ap (λ operation. (perform empty ctx stores operation).1) e
    ∙ ap (λ a. a.1) (perform-reads empty ctx stores _ _ store own)
    ∙ of_stream-Stands store name id shard _ f h

-- Where base64 and JSON decode what they encode: a request for an iterator of a shard that is there is
-- answered with the token that stands for the stream, the shard and the position at which the iterator
-- starts, and a later request for records with that token, by when the shard may have grown, is answered
-- with the sequence numbers, partition keys, data and times of the records of the shard from that
-- position, at most as many as asked for, and with the token of the position behind them.
pub get_shard_iterator-get_records :
    (r : Runtime) (now later : ℕ) (ctx ctx' : RequestContext)
    (stores stores' : AccountRegionBundle KinesisStore) (store store' : KinesisStore)
    (name id : String) (shard shard' : Shard)
    → IsLawful r
    → ctx.operation ≡ "GetShardIterator"
    → str_param ctx "StreamName" ≡ some name
    → str_param ctx "ShardId" ≡ some id
    → get stores ctx.account_id ctx.region ≡ some store
    → Stands store name id shard
    → ctx'.operation ≡ "GetRecords"
    → get stores' ctx'.account_id ctx'.region ≡ some store'
    → Stands store' name id shard'
    → (state : ShardIteratorState)
    → state ≡ record {
      stream_name = name;
      shard_id = id;
      next_index = start_index (type_of ctx) (starting_of ctx) shard.records;
    }
    → str_param ctx' "ShardIterator" ≡ some (r.encode_base64 (r.print_state state))
    → let batch : List KinesisRecord =
        take (limit_of ctx') (drop state.next_index shard'.records) in
      let behind : ShardIteratorState = record {
        stream_name = name;
        shard_id = id;
        next_index = state.next_index + length batch;
      } in
      ((dispatch r now ctx stores).1
        ≡ json_ok (object (("ShardIterator", str (r.encode_base64 (r.print_state state))) ∷ [])))
      × ((dispatch r later ctx' stores').1
          ≡ json_ok (
              object (
                (
                  "Records",
                  array (
                      map
                        (λ rec. object (
                          ("SequenceNumber", str rec.sequence_number)
                          ∷ ("PartitionKey", str rec.partition_key)
                          ∷ ("Data", str rec.data_)
                          ∷ (
                            "ApproximateArrivalTimestamp",
                            num (rec.approximate_arrival_timestamp / 1000000000),
                          )
                          ∷ []))
                        batch),
                )
                ∷ ("NextShardIterator", str (r.encode_base64 (r.print_state behind)))
                ∷ ("MillisBehindLatest", num 0)
                ∷ [])))
unfolding iterator_answer records_answer record_json
get_shard_iterator-get_records r now later ctx ctx' stores stores' store store' name id shard shard'
      law op e q own h op' own' h' state eq token =
    (
      reads_stream-answer r now ctx stores store name id shard _ own h
            (arm-get_shard_iterator r now ctx op ∙ get_shard_iterator-eq r ctx name id e q)
          ∙ ap (token_answer r) (sym eq),
      reads_stream-answer r later ctx' stores' store' state.stream_name state.shard_id shard' _ own'
            (subst (λ st. Stands store' st.stream_name st.shard_id shard') (sym eq) h')
            (arm-get_records r later ctx' op' ∙ get_records-eq r ctx' state law token)
          ∙ ap
              (λ st.
                records_answer r (limit_of ctx') (record st { next_index = state.next_index })
                  shard')
              eq,
    )
