-- ===== src/Kinesis/Invariant.antt =====
-- The invariant of a stream (crates/services/kinesis/src/provider.rs), and that what a request does to
-- the stream keeps it: Resharding for splits and merges, Tags for the tags, Requests for the whole of `dispatch`.
pub mod Resharding
pub mod Tags
pub mod Requests
use openstack.Prelude.{
  ℕ, zero, suc, ◌+◌, ◌%◌, ◌^◌, ◌≤◌, String, ◌==◌, ◌≡◌, refl, sym, ap, ◌∙◌, inl, inr, Bool, true,
  false, Option, none, some, List, [], ◌∷◌, length, push, get_elem?, modify_at, position, count_if,
  All, Option-cases, Bool-cases, arith, ◌||◌, if◌then◌else◌, Holds,
}
use openstack.Prelude.Numbered.{
  length-push, length-modify_at, All-push, All-modify_at, IsNumbered, push-IsNumbered,
  modify_at-IsNumbered,
}
use openstack.Kinesis.Store.{
  KinesisRecord, Shard, KinesisStream, new_shard, new_shards, new, id_text, sequence_text,
  next_sequence_number,
}
use openstack.Kinesis.Shards.{Receipt, append_record, put, put_all}

-- The number of the `n`-th record that a shard is given.
abbrev pub nth_sequence : ℕ → String
nth_sequence n = sequence_text (n % 2 ^ 64)

-- The records of a shard carry the numbers 1, 2, … in order, and the counter stands at the last.
pub record IsSequenced (shard : Shard) : Type 0 where
  pub numbered : IsNumbered (λ r. r.sequence_number) nth_sequence 1 shard.records
  pub counted : shard.sequence_counter ≡ length shard.records % 2 ^ 64

-- The shards carry the ids 0, 1, … in order, the counter stands at the next, `shard_count` counts the
-- open shards, the records of each shard are in sequence, and there are at most fifty tags.
pub record IsWellFormed (s : KinesisStream) : Type 0 where
  pub ids : IsNumbered (λ shard. shard.shard_id) id_text 0 s.shards
  pub next_id : s.shard_id_counter ≡ length s.shards % 2 ^ 64
  pub open_count : s.shard_count ≡ count_if (λ shard. shard.is_open) s.shards
  pub sequenced : All IsSequenced s.shards
  pub few_tags : length s.tags ≤ 50

new_shards-length : (i n : ℕ) → length (new_shards i n) ≡ n
unfolding new_shards
new_shards-length i zero = refl
new_shards-length i (suc n) = ap (λ k. suc k) (new_shards-length (suc i) n)

new_shards-open : (i n : ℕ) → n ≡ count_if (λ shard. shard.is_open) (new_shards i n)
unfolding new_shards new_shard
new_shards-open i zero = refl
new_shards-open i (suc n) = ap (λ k. suc k) (new_shards-open (suc i) n)

new_shards-IsNumbered : (i n : ℕ) → IsNumbered (λ shard. shard.shard_id) id_text i (new_shards i n)
unfolding new_shards new_shard
new_shards-IsNumbered i zero = tt
new_shards-IsNumbered i (suc n) = (refl, new_shards-IsNumbered (suc i) n)

new_shard-IsSequenced : (id : String) → IsSequenced (new_shard id)
unfolding new_shard
new_shard-IsSequenced id = record { numbered = tt; counted = refl }

new_shards-IsSequenced : (i n : ℕ) → All IsSequenced (new_shards i n)
unfolding new_shards
new_shards-IsSequenced i zero = tt
new_shards-IsSequenced i (suc n) =
    (new_shard-IsSequenced (id_text i), new_shards-IsSequenced (suc i) n)

pub new-IsWellFormed : (name arn : String) (count now : ℕ) → IsWellFormed (new name arn count now)
unfolding new
new-IsWellFormed name arn count now = record {
  ids = new_shards-IsNumbered 0 count;
  next_id = ap (λ n. n % 2 ^ 64) (sym (new_shards-length 0 count));
  open_count = new_shards-open 0 count;
  sequenced = new_shards-IsSequenced 0 count;
  few_tags = omega arith;
}

append_record-IsSequenced :
    (now : ℕ) (key data_ : String) (shard : Shard)
    → IsSequenced shard
    → IsSequenced (append_record now key data_ shard)
unfolding append_record next_sequence_number
append_record-IsSequenced now key data_ shard h = record {
  numbered =
      push-IsNumbered (λ r. r.sequence_number) nth_sequence 1 shard.records _ h.numbered
        (ap sequence_text (omega (arith, h.counted)));
  counted = omega (
    arith,
    h.counted,
    length-push shard.records record {
      sequence_number = sequence_text ((shard.sequence_counter + 1) % 2 ^ 64);
      partition_key = key;
      data_ = data_;
      approximate_arrival_timestamp = now;
    },
  );
}

-- A change of one shard that leaves its openness changes no count.
count_if-modify_at :
    (p : Shard → Bool) (f : Shard → Shard) (i : ℕ) (shards : List Shard)
    → ((shard : Shard) → p (f shard) ≡ p shard)
    → count_if p (modify_at i f shards) ≡ count_if p shards
unfolding modify_at
count_if-modify_at p f i [] same = refl
count_if-modify_at p f zero (shard ∷ shards) same = rw (same shard) refl
count_if-modify_at p f (suc i) (shard ∷ shards) same =
    rw (count_if-modify_at p f i shards same) refl

modify_record-IsWellFormed :
    (now i : ℕ) (key data_ : String) (s : KinesisStream)
    → IsWellFormed s
    → IsWellFormed record s { shards = modify_at i (append_record now key data_) s.shards }
unfolding append_record next_sequence_number
modify_record-IsWellFormed now i key data_ s h = record {
  ids = modify_at-IsNumbered (λ shard. shard.shard_id) id_text _ 0 i s.shards (λ shard. refl) h.ids;
  next_id = h.next_id ∙ ap (λ n. n % 2 ^ 64) (sym (length-modify_at i _ s.shards));
  open_count = h.open_count ∙ sym (count_if-modify_at _ _ i s.shards (λ shard. refl));
  sequenced =
      All-modify_at IsSequenced _ i s.shards (append_record-IsSequenced now key data_) h.sequenced;
  few_tags = h.few_tags;
}

pub put-IsWellFormed :
    (hash_string : String → ℕ) (now : ℕ) (key data_ : String) (s : KinesisStream)
    → IsWellFormed s
    → Holds (λ a. IsWellFormed a.0) (put hash_string now key data_ s)
unfolding put
put-IsWellFormed hash_string now key data_ s h =
    elim (Option-cases (get_elem? s.shards (hash_string key % length s.shards))) [
      | inl missing ↦ rw (missing, Holds, put) tt
      | inr (shard, found) ↦ rw (found, Holds, put) (modify_record-IsWellFormed now _ key data_ s h)
    ]

pub put_all-IsWellFormed :
    (hash_string : String → ℕ) (now : ℕ) (entries : List (String × String)) (s : KinesisStream)
    → IsWellFormed s
    → Holds (λ a. IsWellFormed a.0) (put_all hash_string now entries s)
unfolding put_all
put_all-IsWellFormed hash_string now [] s h = h
put_all-IsWellFormed hash_string now ((key, data_) ∷ rest) s h =
    first (put hash_string now key data_ s) (λ s' k. put_all-IsWellFormed hash_string now rest s' k)
      (put-IsWellFormed hash_string now key data_ s h)
  where
    last :
        (r : Receipt) (o : Option (KinesisStream × List Receipt))
        → Holds (λ a. IsWellFormed a.0) o
        → Holds {A = KinesisStream × List Receipt}
            (λ a. IsWellFormed a.0)
            (elim o [ none ↦ none | some (s'', rs) ↦ some (s'', r ∷ rs) ])
    last r none k = tt
    last r (some (s'', rs)) k = k

    first :
        (o : Option (KinesisStream × Receipt))
        → ((s' : KinesisStream)
            → IsWellFormed s'
            → Holds (λ a. IsWellFormed a.0) (put_all hash_string now rest s'))
        → Holds (λ a. IsWellFormed a.0) o
        → Holds {A = KinesisStream × List Receipt}
            (λ a. IsWellFormed a.0)
            (elim o [
              | none ↦ none
              | some (s', r) ↦ elim (put_all hash_string now rest s') [
                | none ↦ none
                | some (s'', rs) ↦ some (s'', r ∷ rs)
              ]
            ])
    first none ih k = tt
    first (some (s', r)) ih k = last r _ (ih s' k)
