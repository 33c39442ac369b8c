-- ===== src/Kinesis/Invariant/Resharding.antt =====
-- The invariant under a split and a merge of shards (crates/services/kinesis/src/provider.rs).
use openstack.Prelude.{
  ℕ, suc, ◌+◌, ◌%◌, ◌^◌, ◌≤◌, String, ◌==◌, ◌≡◌, refl, inl, inr, Option, none, some, List, [], ◌∷◌,
  length, push, modify_at, position, All, Option-cases, Bool-cases, arith, ◌||◌, Holds,
}
use openstack.Prelude.Numbered.{
  length-push, length-modify_at, All-push, All-modify_at, IsNumbered, push-IsNumbered,
  modify_at-IsNumbered,
}
use openstack.Kinesis.Store.{Shard, KinesisStream, new_shard, id_text}
use openstack.Kinesis.Shards.{split, merge, close, close_named, recount, child_of}
use openstack.Kinesis.Invariant.{IsSequenced, IsWellFormed}

-- Only the position modulo 2 ^ 64 stands in an id.
id_text-mod : (a b : ℕ) → a % 2 ^ 64 ≡ b % 2 ^ 64 → id_text a ≡ id_text b
unfolding id_text
id_text-mod a b e = rw e refl

child_of-IsSequenced : (a b : Option String) (i : ℕ) → IsSequenced (child_of a b i)
unfolding new_shard
child_of-IsSequenced a b i = record { numbered = tt; counted = refl }

-- Shards whose ids and records are in order.
record AreInOrder (shards : List Shard) : Type 0 where
  pub ids : IsNumbered (λ shard. shard.shard_id) id_text 0 shards
  pub sequenced : All IsSequenced shards

close-IsSequenced : (shard : Shard) → IsSequenced shard → IsSequenced (close shard)
close-IsSequenced shard h = record { numbered = h.numbered; counted = h.counted }

push_child-AreInOrder :
    (a b : Option String) (shards : List Shard) (counter : ℕ)
    → AreInOrder shards
    → counter % 2 ^ 64 ≡ length shards % 2 ^ 64
    → AreInOrder (push shards (child_of a b counter))
unfolding new_shard
push_child-AreInOrder a b shards counter h e = record {
  ids =
      push-IsNumbered (λ shard. shard.shard_id) id_text 0 shards _ h.ids
        (id_text-mod counter (0 + length shards) (omega (arith, e)));
  sequenced = All-push IsSequenced shards _ h.sequenced (child_of-IsSequenced a b counter);
}

-- Shards in order behind a counter that stands at the next make a stream well formed again.
recount-IsWellFormed :
    (s : KinesisStream) (shards : List Shard) (counter : ℕ)
    → length s.tags ≤ 50
    → AreInOrder shards
    → counter ≡ length shards % 2 ^ 64
    → IsWellFormed (recount record s { shard_id_counter = counter; shards = shards })
recount-IsWellFormed s shards counter few h e = record {
  ids = h.ids;
  next_id = e;
  open_count = refl;
  sequenced = h.sequenced;
  few_tags = few;
}

pub split-IsWellFormed :
    (id : String) (s : KinesisStream) → IsWellFormed s → Holds IsWellFormed (split id s)
unfolding split
split-IsWellFormed id s h =
    elim (Option-cases (position (λ shard. shard.shard_id == id) s.shards)) [
      | inl missing ↦ rw (missing, Holds, split) tt
      | inr (i, found) ↦
          let closed = modify_at i close s.shards in
          let same = length-modify_at i close s.shards in
          let child = child_of (some id) none s.shard_id_counter in
          let grown = length-push closed child in
          let in_order : AreInOrder closed = record {
            ids =
                modify_at-IsNumbered (λ shard. shard.shard_id) id_text _ 0 i s.shards
                  (λ shard. refl) h.ids;
            sequenced = All-modify_at IsSequenced _ i s.shards close-IsSequenced h.sequenced;
          } in
          let first =
            push_child-AreInOrder (some id) none closed s.shard_id_counter in_order
              (omega (arith, h.next_id, same)) in
          let second =
            push_child-AreInOrder (some id) none (push closed child) (s.shard_id_counter + 1) first
              (omega (arith, h.next_id, same, grown)) in
          rw (found, Holds, split)
            (recount-IsWellFormed s _ _ h.few_tags second (
              omega (
                arith,
                h.next_id,
                same,
                grown,
                length-push (push closed child) (child_of (some id) none (s.shard_id_counter + 1)),
              )))
    ]

close_named-length :
    (a b : String) (shards : List Shard) → length (close_named a b shards) ≡ length shards
unfolding close_named
close_named-length a b [] = refl
close_named-length a b (shard ∷ shards) =
    elim (Bool-cases (shard.shard_id == a || shard.shard_id == b)) [
      | inl hit ↦ rw (hit, close_named, close_named-length a b shards) refl
      | inr miss ↦ rw (miss, close_named, close_named-length a b shards) refl
    ]

close_named-AreInOrder :
    (a b : String) (i : ℕ) (shards : List Shard)
    → IsNumbered (λ shard. shard.shard_id) id_text i shards
    → All IsSequenced shards
    → IsNumbered (λ shard. shard.shard_id) id_text i (close_named a b shards)
      × All IsSequenced (close_named a b shards)
unfolding close_named
close_named-AreInOrder a b i [] h k = (tt, tt)
close_named-AreInOrder a b i (shard ∷ shards) h k =
    let (ids, sequenced) = close_named-AreInOrder a b (suc i) shards h.1 k.1 in
    elim (Bool-cases (shard.shard_id == a || shard.shard_id == b)) [
      | inl hit ↦ rw (hit, close_named) ((h.0, ids), (close-IsSequenced shard k.0, sequenced))
      | inr miss ↦ rw (miss, close_named) ((h.0, ids), (k.0, sequenced))
    ]

pub merge-IsWellFormed :
    (a b : String) (s : KinesisStream) → IsWellFormed s → IsWellFormed (merge a b s)
unfolding merge
merge-IsWellFormed a b s h =
    let (ids, sequenced) = close_named-AreInOrder a b 0 s.shards h.ids h.sequenced in
    let same = close_named-length a b s.shards in
    recount-IsWellFormed s _ _ h.few_tags
      (push_child-AreInOrder (some a) (some b) _ s.shard_id_counter
        record { ids = ids; sequenced = sequenced } (omega (arith, h.next_id, same)))
      (omega (
        arith,
        h.next_id,
        same,
        length-push (close_named a b s.shards) (child_of (some a) (some b) s.shard_id_counter),
      ))
