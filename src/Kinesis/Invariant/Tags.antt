-- ===== src/Kinesis/Invariant/Tags.antt =====
-- The tags of a stream and the bound on them (crates/services/kinesis/src/provider.rs).
use openstack.Prelude.{
  suc, ◌+◌, ◌≤◌, String, ◌==◌, ◌≡◌, refl, inl, inr, true, false, Option, none, some, List, [], ◌∷◌,
  length, Dict, get, insert, remove, contains_key, get-insert, ltb, Option-cases, Bool-cases, arith,
  if◌then◌else◌, Holds,
}
use openstack.Framework.Json.{Json, as_str}
use openstack.Kinesis.Store.{KinesisStream}
use openstack.Kinesis.Shards.{new_key_count, insert_tags, add_tags, remove_tags}
use openstack.Kinesis.Invariant.{IsWellFormed}

-- One more entry only under a key that the map does not have.
insert-length :
    (k v : String) (m : Dict String)
    → length (insert k v m) ≡ (if contains_key k m then length m else suc (length m))
unfolding insert get
insert-length k v [] = refl
insert-length k v ((j, w) ∷ m) = elim (Bool-cases (j == k)) [
  | inl same ↦ rw (same, insert, get) refl
  | inr other ↦ elim (Bool-cases (contains_key k m)) [
    | inl there ↦ rw (other, insert, get, insert-length k v m, there) refl
    | inr new ↦ rw (other, insert, get, insert-length k v m, new) refl
  ]
]

remove-length-le : (k : String) (m : Dict String) → length (remove k m) ≤ length m
unfolding remove
remove-length-le k [] = omega arith
remove-length-le k ((j, w) ∷ m) = ground (arith, remove-length-le k m)

-- The keys of the one map are among those of the other.
abbrev Covers : Dict String → Dict String → Type 0
Covers m n = (k : String) → contains_key k n ≡ true → contains_key k m ≡ true

insert-Covers : (k v : String) (m n : Dict String) → Covers m n → Covers (insert k v m) n
insert-Covers k v m n h j e = ground (arith, get-insert k j v m, h j e)

-- The tags grow at most by the keys that the older tags do not have.
insert_tags-length-le :
    (fs : List (String × Json)) (older tags : Dict String)
    → Covers tags older
    → length (insert_tags fs tags) ≤ length tags + new_key_count older fs
unfolding insert_tags new_key_count
insert_tags-length-le [] older tags h = omega arith
insert_tags-length-le ((k, v) ∷ fs) older tags h = elim (Option-cases (as_str v)) [
  | inl other ↦ rw (other, insert_tags) (ground (arith, insert_tags-length-le fs older tags h))
  | inr (val, text) ↦
      let rest =
        insert_tags-length-le fs older (insert k val tags) (insert-Covers k val tags older h) in
      rw (text, insert_tags) (ground (arith, rest, insert-length k val tags, h k))
]

new_key_count-le-length :
    (tags : Dict String) (fs : List (String × Json)) → new_key_count tags fs ≤ length fs
unfolding new_key_count
new_key_count-le-length tags [] = omega arith
new_key_count-le-length tags (f ∷ fs) = ground (arith, new_key_count-le-length tags fs)

-- The last text that the members have under a key.
abbrev pub last_text : String → List (String × Json) → Option String
last_text k [] = none
last_text k ((j, v) ∷ fs) = elim (last_text k fs) [
  | some later ↦ some later
  | none ↦ if j == k then as_str v else none
]

-- The one where there is one, else the other.
abbrev pub or_else : Option String → Option String → Option String
or_else none old = old
or_else (some v) old = some v

get-insert_tags :
    (fs : List (String × Json)) (tags : Dict String) (k : String)
    → get k (insert_tags fs tags) ≡ or_else (last_text k fs) (get k tags)
unfolding insert_tags
get-insert_tags [] tags k = refl
get-insert_tags ((j, v) ∷ fs) tags k = elim (Option-cases (as_str v)) [
  | inl other ↦ elim (Option-cases (last_text k fs)) [
    | inl e ↦ rw (other, insert_tags, get-insert_tags fs tags k, e) (ground (arith, other))
    | inr (later, e) ↦ rw (other, insert_tags, get-insert_tags fs tags k, e) refl
  ]
  | inr (val, text) ↦ elim (Option-cases (last_text k fs)) [
    | inl e ↦
        rw (text, insert_tags, get-insert_tags fs (insert j val tags) k, e, get-insert j k val tags)
          (ground (arith, text))
    | inr (later, e) ↦ rw (text, insert_tags, get-insert_tags fs (insert j val tags) k, e) refl
  ]
]

-- An add of tags is accepted where the tags of the stream and the members sent are at most fifty in
-- all. It then leaves at most fifty tags, and under every key the last text that was sent for it, or,
-- where none was sent, what the stream had before; it changes no shard.
pub add_tags-get :
    (fs : List (String × Json)) (s : KinesisStream) (k : String)
    → length s.tags + length fs ≤ 50
    → (s' : KinesisStream) × (add_tags fs s ≡ some s')
      × (get k s'.tags ≡ or_else (last_text k fs) (get k s.tags))
      × (length s'.tags ≤ 50)
      × (s'.shards ≡ s.shards)
unfolding add_tags
add_tags-get fs s k room =
    let few = new_key_count-le-length s.tags fs in
    let fits : ltb 50 (length s.tags + new_key_count s.tags fs) ≡ false = ground (arith, few) in
    let grown = insert_tags-length-le fs s.tags s.tags (λ k e. e) in
    (
      record s { tags = insert_tags fs s.tags },
      rw fits refl,
      get-insert_tags fs s.tags k,
      omega (arith, grown, few),
      refl,
    )

remove_tags-length-le :
    (ks : List Json) (tags : Dict String) → length (remove_tags ks tags) ≤ length tags
unfolding remove_tags
remove_tags-length-le [] tags = omega arith
remove_tags-length-le (k ∷ ks) tags = elim (Option-cases (as_str k)) [
  | inl other ↦ rw (other, remove_tags) (remove_tags-length-le ks tags)
  | inr (key, text) ↦
      rw (text, remove_tags)
        (omega (arith, remove_tags-length-le ks (remove key tags), remove-length-le key tags))
]

-- Other tags, not too many, change nothing else of a stream.
retag-IsWellFormed :
    (s : KinesisStream) (tags : Dict String)
    → IsWellFormed s
    → length tags ≤ 50
    → IsWellFormed record s { tags = tags }
retag-IsWellFormed s tags h few = record {
  ids = h.ids;
  next_id = h.next_id;
  open_count = h.open_count;
  sequenced = h.sequenced;
  few_tags = few;
}

pub add_tags-IsWellFormed :
    (fs : List (String × Json)) (s : KinesisStream)
    → IsWellFormed s
    → Holds IsWellFormed (add_tags fs s)
unfolding add_tags
add_tags-IsWellFormed fs s h =
    elim (Bool-cases (ltb 50 (length s.tags + new_key_count s.tags fs))) [
      | inl full ↦ rw (full, Holds) tt
      | inr room ↦
          rw (room, Holds)
            (retag-IsWellFormed s _ h
              (ground (arith, insert_tags-length-le fs s.tags s.tags (λ k e. e), room)))
    ]

pub remove_tags-IsWellFormed :
    (ks : List Json) (s : KinesisStream)
    → IsWellFormed s
    → IsWellFormed record s { tags = remove_tags ks s.tags }
remove_tags-IsWellFormed ks s h =
    retag-IsWellFormed s _ h (omega (arith, remove_tags-length-le ks s.tags, h.few_tags))
