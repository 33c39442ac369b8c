-- ===== src/Kinesis/Reading/Consumer.antt =====
-- A consumer of one shard among the producers of its stream: the reads of `GetRecords`, each from where
-- the one before it ended, and the changes of `PutRecord`, `PutRecords`, `SplitShard`, `MergeShards` and
-- the tagging operations, in any order (crates/services/kinesis/src/provider.rs).
use mathlib.Core.List.{◌++◌, append_assoc, append-nil}
use openstack.Prelude.{
  Bool-cases, ltb, subst, length-append, ℕ, ◌+◌, String, ◌≡◌, refl, sym, ap, ◌∙◌, inl, inr, Option,
  none, some, List, [], ◌∷◌, length, take, drop, Holds, Holds-some, Option-cases,
}
use openstack.Prelude.Numbered.{take-append-drop, drop-length-append}
use openstack.Framework.Json.{Json}
use openstack.Kinesis.Store.{KinesisRecord, Shard, KinesisStream}
use openstack.Kinesis.Shards.{put, put_all, split, add_tags, new_key_count}
use openstack.Kinesis.Handlers.{Runtime}
use openstack.Kinesis.Handlers.Management.{split_in, merge_in}
use openstack.Kinesis.Handlers.Records.{put_in, put_all_in, find_shard, read_from}
use openstack.Kinesis.Handlers.Tags.{add_tags_in, remove_tags_in}
use openstack.Kinesis.Reading.Growth.{
  HasFront, AllExtend, AllExtend-refl, find_shard-AllExtend, put-AllExtend, put_all-AllExtend,
  split-AllExtend, merge-AllExtend,
}

-- What a request changes in the stream, with what its handler takes.
pub data Change : Type 0 where
  puts_one : ℕ → String → String → Change
  puts_many : ℕ → List (String × String) → Change
  splits : String → Change
  merges : String → String → Change
  tags : Option (List (String × Json)) → Change
  untags : Option (List Json) → Change

unfoldable pub apply : Runtime → Change → KinesisStream → KinesisStream
apply r (puts_one now key data_) s = (put_in r.hash_string now key data_ s).0
apply r (puts_many now entries) s = (put_all_in r now entries s).0
apply r (splits id) s = (split_in id s).0
apply r (merges a b) s = (merge_in a b s).0
apply r (tags fs) s = (add_tags_in fs s).0
apply r (untags ks) s = (remove_tags_in ks s).0

pub data Event : Type 0 where
  changed : Change → Event
  reads_next : ℕ → Event

-- The records that the consumer receives, one batch behind the other, and the stream at the end.
unfoldable pub consume :
    Runtime → String → List Event → KinesisStream → ℕ → List KinesisRecord × KinesisStream
unfolding apply read_from
consume r id [] s next = ([], s)
consume r id (changed c ∷ events) s next = consume r id events (apply r c s) next
consume r id (reads_next limit ∷ events) s next = elim (find_shard id s.shards) [
  | none ↦ consume r id events s next
  | some shard ↦
      let (batch, next') = read_from next limit shard.records in
      let (rest, final) = consume r id events s next' in (batch ++ rest, final)
]

add_tags-AllExtend :
    (fs : List (String × Json)) (s : KinesisStream)
    → Holds (λ s'. AllExtend s.shards s'.shards) (add_tags fs s)
unfolding add_tags
add_tags-AllExtend fs s = elim (Bool-cases (ltb 50 (length s.tags + new_key_count s.tags fs))) [
  | inl full ↦ rw (full, Holds) tt
  | inr room ↦ rw (room, Holds) (AllExtend-refl s.shards)
]

apply-AllExtend :
    (r : Runtime) (c : Change) (s : KinesisStream) → AllExtend s.shards (apply r c s).shards
unfolding apply put_in put_all_in split_in add_tags_in remove_tags_in add_tags
apply-AllExtend r (puts_one now key data_) s =
    elim (Option-cases (put r.hash_string now key data_ s)) [
      | inl missing ↦ rw (missing, apply, put_in) (AllExtend-refl s.shards)
      | inr (a, e) ↦
          rw (e, apply, put_in)
            (Holds-some (λ a. AllExtend s.shards a.0.shards) _ a e
              (put-AllExtend r.hash_string now key data_ s))
    ]
apply-AllExtend r (puts_many now entries) s =
    elim (Option-cases (put_all r.hash_string now entries s)) [
      | inl missing ↦ rw (missing, apply, put_all_in) (AllExtend-refl s.shards)
      | inr (a, e) ↦
          rw (e, apply, put_all_in)
            (Holds-some (λ a. AllExtend s.shards a.0.shards) _ a e
              (put_all-AllExtend r.hash_string now entries s))
    ]
apply-AllExtend r (splits id) s = elim (Option-cases (split id s)) [
  | inl missing ↦ rw (missing, apply, split_in) (AllExtend-refl s.shards)
  | inr (s', e) ↦
      rw (e, apply, split_in)
        (Holds-some (λ s'. AllExtend s.shards s'.shards) _ s' e (split-AllExtend id s))
]
apply-AllExtend r (merges a b) s = merge-AllExtend a b s
apply-AllExtend r (tags none) s = AllExtend-refl s.shards
apply-AllExtend r (tags (some fs)) s = elim (Option-cases (add_tags fs s)) [
  | inl full ↦ rw (full, apply, add_tags_in) (AllExtend-refl s.shards)
  | inr (s', e) ↦
      rw (e, apply, add_tags_in)
        (Holds-some (λ s'. AllExtend s.shards s'.shards) _ s' e (add_tags-AllExtend fs s))
]
apply-AllExtend r (untags none) s = AllExtend-refl s.shards
apply-AllExtend r (untags (some ks)) s = AllExtend-refl s.shards

-- A read behind what the consumer has gives it more of the front.
read-HasFront :
    (id : String) (got : List KinesisRecord) (limit : ℕ) (shards : List Shard)
    (h : HasFront id got shards)
    → HasFront id (got ++ take limit (drop (length got) h.shard.records)) shards
read-HasFront id got limit shards h =
    let behind : drop (length got) h.shard.records ≡ h.more =
      ap (drop (length got)) h.extends ∙ drop-length-append got h.more in
    record {
      shard = h.shard;
      found = h.found;
      more = drop limit h.more;
      extends =
          h.extends
          ∙ ap (λ l. got ++ l) (sym (take-append-drop limit h.more))
          ∙ sym (append_assoc got (take limit h.more) (drop limit h.more))
          ∙ ap (λ l. (got ++ take limit l) ++ drop limit h.more) (sym behind);
    }

-- What the consumer has: a front of the records, and with one more read for at most `limit` records as
-- many of those that are left.
abbrev pub Has : String → ℕ → List Shard → List KinesisRecord → List KinesisRecord → Type 0
Has id limit shards received with_last =
    (h : HasFront id received shards) × (with_last ≡ received ++ take limit h.more)

-- What the consumer has when it has `got`, and reads on from there through the events.
abbrev HasRead : Runtime → String → List Event → KinesisStream → ℕ → List KinesisRecord → ℕ → Type 0
HasRead r id events s limit got next =
    let (received, final) = consume r id events s next in
    let with_last = (consume r id (events ++ (reads_next limit ∷ [])) s next).0 in
    Has id limit final.shards (got ++ received) (got ++ with_last)

consume-got :
    (r : Runtime) (id : String) (events : List Event) (s : KinesisStream) (limit : ℕ)
    (got : List KinesisRecord)
    → HasFront id got s.shards
    → HasRead r id events s limit got (length got)
unfolding consume
consume-got r id [] s limit got h =
    let behind : drop (length got) h.shard.records ≡ h.more =
      ap (drop (length got)) h.extends ∙ drop-length-append got h.more in
    let batch = take limit (drop (length got) h.shard.records) in
    (
      record {
        shard = h.shard;
        found = h.found;
        more = h.more;
        extends = h.extends ∙ ap (λ l. l ++ h.more) (sym (append-nil got));
      },
      rw (h.found, consume)
          (ap (λ l. got ++ l) (append-nil batch)
            ∙ ap (λ l. got ++ take limit l) behind
            ∙ ap (λ l. l ++ take limit h.more) (sym (append-nil got))),
    )
consume-got r id (changed c ∷ events) s limit got h =
    consume-got r id events (apply r c s) limit got
      (find_shard-AllExtend id got s.shards _ (apply-AllExtend r c s) h)
consume-got r id (reads_next l ∷ events) s limit got h =
    let batch = take l (drop (length got) h.shard.records) in
    let next = length got + length batch in
    let ih =
      subst (HasRead r id events s limit (got ++ batch)) (length-append got batch)
        (consume-got r id events s limit (got ++ batch) (read-HasFront id got l s.shards h)) in
    let (received, final) = consume r id events s next in
    let with_last = (consume r id (events ++ (reads_next limit ∷ [])) s next).0 in
    rw (h.found, consume)
      (subst (λ x. Has id limit final.shards (got ++ (batch ++ received)) x)
        (append_assoc got batch with_last)
        (subst (λ x. Has id limit final.shards x ((got ++ batch) ++ with_last))
          (append_assoc got batch received) ih))

-- A consumer that starts at the first record of a shard receives the records of the shard in order,
-- each once and none left out: after any sequence of its reads and of puts, splits, merges and changes
-- of tags, what it has received is a front of the records that the shard then has; and when it reads once
-- more, it receives those that are left, in order, as many as it asks for.
pub consume-front :
    (r : Runtime) (id : String) (events : List Event) (s : KinesisStream) (limit : ℕ)
    (shard : Shard)
    → find_shard id s.shards ≡ some shard
    → Has id limit
        (consume r id events s 0).1.shards
        (consume r id events s 0).0
        (consume r id (events ++ (reads_next limit ∷ [])) s 0).0
consume-front r id events s limit shard found =
    consume-got r id events s limit []
      record { shard = shard; found = found; more = shard.records; extends = refl }
