-- ===== src/Kinesis/Reading.antt =====
-- Readers of a shard (crates/services/kinesis/src/provider.rs): where an iterator starts, and what a
-- consumer receives while others change the stream.
pub mod Growth
pub mod Consumer
pub mod Tokens
use Prim.Native.Nat.{◌<◌}
use openstack.Prelude.{
  subst, ℕ, zero, suc, ◌+◌, ◌%◌, ◌^◌, String, ◌==◌, ◌≡◌, refl, sym, ap, ◌∙◌, Option, none, some,
  List, [], ◌∷◌, length, get_elem?, position, arith, eq_iff, inl, inr,
}
use openstack.Prelude.Format.{dec_pad-injective}
use openstack.Prelude.Numbered.{IsNumbered, position-IsNumbered, get_elem?-IsNumbered, get_elem?-lt}
use openstack.Kinesis.Store.{
  KinesisRecord, Shard, at_sequence_number, after_sequence_number, sequence_text,
}
use openstack.Kinesis.Shards.{start_index}
use openstack.Kinesis.Invariant.{IsSequenced, nth_sequence}

nth_sequence-injective :
    (a b : ℕ) → a < 2 ^ 64 → b < 2 ^ 64 → nth_sequence a ≡ nth_sequence b → a ≡ b
nth_sequence-injective a b p q e =
    let same = dec_pad-injective 49 (a % 2 ^ 64) (b % 2 ^ 64) (omega arith) (omega arith) e in
    omega (arith, same)

-- The position of a record is found by its number.
position-sequence :
    (shard : Shard) (k : ℕ) (r : KinesisRecord)
    → IsSequenced shard
    → length shard.records + 1 < 2 ^ 64
    → get_elem? shard.records k ≡ some r
    → position (λ x. x.sequence_number == r.sequence_number) shard.records ≡ some k
position-sequence shard k r h room e =
    let name =
      get_elem?-IsNumbered (λ x. x.sequence_number) nth_sequence 1 k shard.records r h.numbered e in
    let lt = get_elem?-lt k shard.records r e in
    subst (λ t. position (λ x. x.sequence_number == t) shard.records ≡ some k) (sym name)
      (position-IsNumbered (λ x. x.sequence_number) nth_sequence (2 ^ 64) 1 k shard.records
        nth_sequence-injective h.numbered lt (omega (arith, lt)))

-- In a shard whose records are in sequence, and that has not used up its numbers, an iterator at the
-- sequence number of a record starts at that record, and one after the sequence number starts at the
-- record behind it.
pub start_index-sequence :
    (shard : Shard) (k : ℕ) (r : KinesisRecord)
    → IsSequenced shard
    → length shard.records + 1 < 2 ^ 64
    → get_elem? shard.records k ≡ some r
    → (start_index at_sequence_number r.sequence_number shard.records ≡ k)
      × (start_index after_sequence_number r.sequence_number shard.records ≡ k + 1)
unfolding start_index
start_index-sequence shard k r h room e =
    let found = position-sequence shard k r h room e in
    (rw (found, start_index) refl, rw (found, start_index) refl)
