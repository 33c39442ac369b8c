-- ===== src/Kinesis/Invariant/Requests.antt =====
-- The invariant of every stream under any sequence of requests to `KinesisProvider::dispatch`
-- (crates/services/kinesis/src/provider.rs).
use openstack.Prelude.{
  Holds-some, ℕ, String, inl, inr, Option, none, some, List, [], ◌∷◌, get, contains_key, All,
  Option-cases, Bool-cases, get-All, insert-All, remove-All,
}
use openstack.Framework.Json.{Json, as_array}
use openstack.Framework.Traits.{RequestContext, DispatchResponse}
use openstack.Framework.Service.{
  not_implemented, require, Operation, member, require, not_implemented,
}
use openstack.Framework.Service.Laws.{Keeps, require-Keeps, route-Keeps, perform-Keeps}
use openstack.State.Bundle.{AccountRegionBundle}
use openstack.Kinesis.Store.{KinesisStream, KinesisStore, empty, new}
use openstack.Kinesis.Shards.{put, put_all, split, add_tags}
use openstack.Kinesis.Handlers.{Runtime, decode_iterator, with_stream}
use openstack.Kinesis.Handlers.Management.{
  create_in, create_stream, delete_in, delete_stream, describe_stream, describe_stream_summary,
  list_streams, list_shards, increase_retention, decrease_retention, split_in, split_shard,
  merge_shards,
}
use openstack.Kinesis.Handlers.Records.{
  put_in, put_all_in, put_record, put_records, get_shard_iterator, get_records,
}
use openstack.Kinesis.Handlers.Tags.{
  add_tags_in, remove_tags_in, add_tags_to_stream, list_tags_for_stream, remove_tags_from_stream,
}
use openstack.Kinesis.Provider.{arms, arm, dispatch}
use openstack.Kinesis.Invariant.{
  IsWellFormed, new-IsWellFormed, put-IsWellFormed, put_all-IsWellFormed,
}
use openstack.Kinesis.Invariant.Resharding.{split-IsWellFormed, merge-IsWellFormed}
use openstack.Kinesis.Invariant.Tags.{add_tags-IsWellFormed, remove_tags-IsWellFormed}

-- Every stream of the store is well formed.
abbrev pub IsSound : KinesisStore → Type 0
IsSound store = All (λ e. IsWellFormed e.1) store.streams

with_stream-IsSound :
    (name : String) (absent : DispatchResponse)
    (f : KinesisStream → KinesisStream × DispatchResponse)
    → ((s : KinesisStream) → IsWellFormed s → IsWellFormed (f s).0)
    → (store : KinesisStore) → IsSound store
    → IsSound (with_stream name absent f store).0
unfolding with_stream
with_stream-IsSound name absent f keeps store h = elim (Option-cases (get name store.streams)) [
  | inl missing ↦ rw (missing, with_stream) h
  | inr (s, found) ↦
      rw (found, with_stream)
        (insert-All IsWellFormed name _ store.streams
          (keeps s (get-All IsWellFormed name store.streams s found h)) h)
]

-- An arm that needs the name of a stream.
named :
    (ctx : RequestContext) (key error_code : String) (operation : String → Operation KinesisStore)
    → ((v : String) → Keeps IsSound (operation v))
    → Keeps IsSound (require ctx key error_code operation)
named ctx key error_code operation h = require-Keeps IsSound ctx key error_code operation h

create_in-IsSound :
    (name : String) (s : KinesisStream) (store : KinesisStore)
    → IsWellFormed s
    → IsSound store
    → IsSound (create_in name s store).0
unfolding create_in
create_in-IsSound name s store new h = elim (Bool-cases (contains_key name store.streams)) [
  | inl there ↦ rw (there, create_in) h
  | inr free ↦ rw (free, create_in) (insert-All IsWellFormed name s store.streams new h)
]

delete_in-IsSound :
    (name : String) (store : KinesisStore) → IsSound store → IsSound (delete_in name store).0
unfolding delete_in
delete_in-IsSound name store h = elim (Bool-cases (contains_key name store.streams)) [
  | inl there ↦ rw (there, delete_in) (remove-All IsWellFormed name store.streams h)
  | inr free ↦ rw (free, delete_in) h
]

-- What the handlers do to the stream they find.
split_in-IsWellFormed :
    (id : String) (s : KinesisStream) → IsWellFormed s → IsWellFormed (split_in id s).0
unfolding split_in
split_in-IsWellFormed id s h = elim (Option-cases (split id s)) [
  | inl missing ↦ rw (missing, split_in) h
  | inr (s', e) ↦
      rw (e, split_in) (Holds-some IsWellFormed (split id s) s' e (split-IsWellFormed id s h))
]

put_in-IsWellFormed :
    (hash_string : String → ℕ) (now : ℕ) (key data_ : String) (s : KinesisStream)
    → IsWellFormed s
    → IsWellFormed (put_in hash_string now key data_ s).0
unfolding put_in
put_in-IsWellFormed hash_string now key data_ s h =
    elim (Option-cases (put hash_string now key data_ s)) [
      | inl missing ↦ rw (missing, put_in) h
      | inr (a, e) ↦
          rw (e, put_in)
            (Holds-some (λ a. IsWellFormed a.0) _ a e
              (put-IsWellFormed hash_string now key data_ s h))
    ]

put_all_in-IsWellFormed :
    (r : Runtime) (now : ℕ) (entries : List (String × String)) (s : KinesisStream)
    → IsWellFormed s
    → IsWellFormed (put_all_in r now entries s).0
unfolding put_all_in
put_all_in-IsWellFormed r now entries s h =
    elim (Option-cases (put_all r.hash_string now entries s)) [
      | inl missing ↦ rw (missing, put_all_in) h
      | inr (a, e) ↦
          rw (e, put_all_in)
            (Holds-some (λ a. IsWellFormed a.0) _ a e
              (put_all-IsWellFormed r.hash_string now entries s h))
    ]

add_tags_in-IsWellFormed :
    (fs : Option (List (String × Json))) (s : KinesisStream)
    → IsWellFormed s
    → IsWellFormed (add_tags_in fs s).0
unfolding add_tags_in
add_tags_in-IsWellFormed none s h = h
add_tags_in-IsWellFormed (some fs) s h = elim (Option-cases (add_tags fs s)) [
  | inl full ↦ rw (full, add_tags_in) h
  | inr (s', e) ↦
      rw (e, add_tags_in) (Holds-some IsWellFormed _ s' e (add_tags-IsWellFormed fs s h))
]

remove_tags_in-IsWellFormed :
    (ks : Option (List Json)) (s : KinesisStream)
    → IsWellFormed s
    → IsWellFormed (remove_tags_in ks s).0
unfolding remove_tags_in
remove_tags_in-IsWellFormed none s h = h
remove_tags_in-IsWellFormed (some ks) s h = remove_tags-IsWellFormed ks s h

retain-IsWellFormed :
    (hours : ℕ) (s : KinesisStream)
    → IsWellFormed s
    → IsWellFormed record s { retention_period_hours = hours }
retain-IsWellFormed hours s h = record {
  ids = h.ids;
  next_id = h.next_id;
  open_count = h.open_count;
  sequenced = h.sequenced;
  few_tags = h.few_tags;
}

module _ (r : Runtime) (now : ℕ) (ctx : RequestContext) where
  create_stream-Keeps : Keeps IsSound (create_stream now ctx)
  unfolding create_stream
  create_stream-Keeps =
      named ctx _ _ _
        (λ name store h. create_in-IsSound name _ store (new-IsWellFormed name _ _ now) h)

  delete_stream-Keeps : Keeps IsSound (delete_stream ctx)
  unfolding delete_stream
  delete_stream-Keeps = named ctx _ _ _ (λ name store h. delete_in-IsSound name store h)

  describe_stream-Keeps : Keeps IsSound (describe_stream ctx)
  unfolding describe_stream
  describe_stream-Keeps = named ctx _ _ _ (λ name. tt)

  describe_stream_summary-Keeps : Keeps IsSound (describe_stream_summary ctx)
  unfolding describe_stream_summary
  describe_stream_summary-Keeps = named ctx _ _ _ (λ name. tt)

  list_shards-Keeps : Keeps IsSound (list_shards ctx)
  unfolding list_shards
  list_shards-Keeps = named ctx _ _ _ (λ name. tt)

  list_streams-Keeps : Keeps IsSound list_streams
  unfolding list_streams
  list_streams-Keeps = tt

  increase_retention-Keeps : Keeps IsSound (increase_retention ctx)
  unfolding increase_retention
  increase_retention-Keeps =
      named ctx _ _ _ (λ name. with_stream-IsSound name _ _ (retain-IsWellFormed _))

  decrease_retention-Keeps : Keeps IsSound (decrease_retention ctx)
  unfolding decrease_retention
  decrease_retention-Keeps =
      named ctx _ _ _ (λ name. with_stream-IsSound name _ _ (retain-IsWellFormed _))

  split_shard-Keeps : Keeps IsSound (split_shard ctx)
  unfolding split_shard
  split_shard-Keeps =
      named ctx _ _ _
        (λ name. named ctx _ _ _ (λ id. with_stream-IsSound name _ _ (split_in-IsWellFormed id)))

  merge_shards-Keeps : Keeps IsSound (merge_shards ctx)
  unfolding merge_shards
  merge_shards-Keeps =
      named ctx _ _ _ (λ name. with_stream-IsSound name _ _ (merge-IsWellFormed _ _))

  put_record-Keeps : Keeps IsSound (put_record r now ctx)
  unfolding put_record
  put_record-Keeps =
      named ctx _ _ _
        (λ name. with_stream-IsSound name _ _ (put_in-IsWellFormed r.hash_string now _ _))

  put_records-Keeps : Keeps IsSound (put_records r now ctx)
  unfolding put_records
  put_records-Keeps = named ctx _ _ _ (λ name.
      elim (Option-cases (member as_array "Records" ctx.request_body)) [
        | inl missing ↦ rw (missing, Keeps) tt
        | inr (records, found) ↦
            rw (found, Keeps) (with_stream-IsSound name _ _ (put_all_in-IsWellFormed r now _))
      ])

  get_shard_iterator-Keeps : Keeps IsSound (get_shard_iterator r ctx)
  unfolding get_shard_iterator
  get_shard_iterator-Keeps = named ctx _ _ _ (λ name. named ctx _ _ _ (λ id. tt))

  get_records-Keeps : Keeps IsSound (get_records r ctx)
  unfolding get_records
  get_records-Keeps = named ctx _ _ _ (λ token. elim (Option-cases (decode_iterator r token)) [
    | inl bad ↦ rw (bad, Keeps) tt
    | inr (state, good) ↦ rw (good, Keeps) tt
  ])

  add_tags_to_stream-Keeps : Keeps IsSound (add_tags_to_stream ctx)
  unfolding add_tags_to_stream
  add_tags_to_stream-Keeps =
      named ctx _ _ _ (λ name. with_stream-IsSound name _ _ (add_tags_in-IsWellFormed _))

  list_tags_for_stream-Keeps : Keeps IsSound (list_tags_for_stream ctx)
  unfolding list_tags_for_stream
  list_tags_for_stream-Keeps = named ctx _ _ _ (λ name. tt)

  remove_tags_from_stream-Keeps : Keeps IsSound (remove_tags_from_stream ctx)
  unfolding remove_tags_from_stream
  remove_tags_from_stream-Keeps =
      named ctx _ _ _ (λ name. with_stream-IsSound name _ _ (remove_tags_in-IsWellFormed _))

  not_implemented-Keeps : Keeps IsSound (not_implemented ctx.operation)
  unfolding not_implemented
  not_implemented-Keeps = tt

  arm-Keeps : Keeps IsSound (arm r now ctx)
  unfolding arm arms
  arm-Keeps =
      route-Keeps IsSound ctx.operation (arms r now ctx) (not_implemented ctx.operation)
        (
          create_stream-Keeps,
          (
            delete_stream-Keeps,
            (
              describe_stream-Keeps,
              (
                describe_stream_summary-Keeps,
                (
                  list_streams-Keeps,
                  (
                    list_shards-Keeps,
                    (
                      increase_retention-Keeps,
                      (
                        decrease_retention-Keeps,
                        (
                          put_record-Keeps,
                          (
                            put_records-Keeps,
                            (
                              get_shard_iterator-Keeps,
                              (
                                get_records-Keeps,
                                (
                                  split_shard-Keeps,
                                  (
                                    merge_shards-Keeps,
                                    (
                                      add_tags_to_stream-Keeps,
                                      (
                                        list_tags_for_stream-Keeps,
                                        (remove_tags_from_stream-Keeps, tt),
                                      ),
                                    ),
                                  ),
                                ),
                              ),
                            ),
                          ),
                        ),
                      ),
                    ),
                  ),
                ),
              ),
            ),
          ),
        )
        not_implemented-Keeps

-- The stores after a sequence of requests, each at its time.
unfoldable pub after :
    Runtime
    → List (ℕ × RequestContext)
    → AccountRegionBundle KinesisStore
    → AccountRegionBundle KinesisStore
unfolding dispatch
after r [] stores = stores
after r ((now, ctx) ∷ requests) stores = after r requests (dispatch r now ctx stores).0

dispatch-IsSound :
    (r : Runtime) (now : ℕ) (ctx : RequestContext) (stores : AccountRegionBundle KinesisStore)
    → All (λ e. IsSound e.1) stores
    → All (λ e. IsSound e.1) (dispatch r now ctx stores).0
unfolding dispatch
dispatch-IsSound r now ctx stores h =
    perform-Keeps IsSound empty ctx stores (arm r now ctx) tt (arm-Keeps r now ctx) h

after-IsSound :
    (r : Runtime) (requests : List (ℕ × RequestContext)) (stores : AccountRegionBundle KinesisStore)
    → All (λ e. IsSound e.1) stores
    → All (λ e. IsSound e.1) (after r requests stores)
unfolding after
after-IsSound r [] stores h = h
after-IsSound r ((now, ctx) ∷ requests) stores h =
    after-IsSound r requests (dispatch r now ctx stores).0 (dispatch-IsSound r now ctx stores h)

-- Whatever requests are made of a new provider, in whatever order, every stream of every account and
-- region stays well formed: its shards have the ids 0, 1, … in order and its counter stands at the next
-- id, both modulo 2 ^ 64, its shard count is the number of its open shards, the records of each shard
-- have the sequence numbers 1, 2, … in order, modulo 2 ^ 64, and it has at most fifty tags.
pub after-IsWellFormed :
    (r : Runtime) (requests : List (ℕ × RequestContext))
    → All (λ e. IsSound e.1) (after r requests [])
after-IsWellFormed r requests = after-IsSound r requests [] tt
