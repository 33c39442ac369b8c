-- ===== src/Kinesis/Reading/Growth.antt =====
-- What a change of a stream does to the records of a shard (crates/services/kinesis/src/provider.rs).
use mathlib.Core.List.{◌++◌, append_assoc, append-nil}
use openstack.Prelude.{
  ℕ, zero, suc, ◌%◌, String, ◌==◌, ◌||◌, ◌≡◌, refl, sym, ap, ◌∙◌, inl, inr, some, List, [], ◌∷◌,
  length, push, modify_at, get_elem?, position, Holds, Holds-some, Option-cases, Bool-cases,
}
use openstack.Prelude.Numbered.{push-append}
use openstack.Kinesis.Store.{KinesisRecord, Shard, KinesisStream, next_sequence_number}
use openstack.Kinesis.Shards.{append_record, put, put_all, split, merge, close, close_named}
use openstack.Kinesis.Handlers.Records.{find_shard}

-- The shard found by the id has these records in front, and perhaps more.
pub record HasFront (id : String) (front : List KinesisRecord) (shards : List Shard) : Type 0 where
  pub shard : Shard
  pub found : find_shard id shards ≡ some shard
  pub more : List KinesisRecord
  pub extends : shard.records ≡ front ++ more

-- A change of one shard that keeps its id and extends its records.
pub record Extends (old new : Shard) : Type 0 where
  pub same_id : new.shard_id ≡ old.shard_id
  pub more : List KinesisRecord
  pub extends : new.records ≡ old.records ++ more

-- The shards of the one list are those of the other, extended, with others behind.
abbrev pub AllExtend : List Shard → List Shard → Type 0
AllExtend [] news = Unit
AllExtend (old ∷ olds) [] = ⊥
AllExtend (old ∷ olds) (new ∷ news) = Extends old new × AllExtend olds news

unchanged : (shard : Shard) → Extends shard shard
unchanged shard = record { same_id = refl; more = []; extends = sym (append-nil shard.records) }

pub AllExtend-refl : (shards : List Shard) → AllExtend shards shards
AllExtend-refl [] = tt
AllExtend-refl (shard ∷ shards) = (unchanged shard, AllExtend-refl shards)

Extends-trans : (a b c : Shard) → Extends a b → Extends b c → Extends a c
Extends-trans a b c h k = record {
  same_id = k.same_id ∙ h.same_id;
  more = h.more ++ k.more;
  extends = k.extends ∙ ap (λ l. l ++ k.more) h.extends ∙ append_assoc a.records h.more k.more;
}

pub AllExtend-trans : (xs ys zs : List Shard) → AllExtend xs ys → AllExtend ys zs → AllExtend xs zs
AllExtend-trans [] ys zs h k = tt
AllExtend-trans (a ∷ xs) [] zs h k = absurd h
AllExtend-trans (a ∷ xs) (b ∷ ys) [] h k = absurd k
AllExtend-trans (a ∷ xs) (b ∷ ys) (c ∷ zs) h k =
    (Extends-trans a b c h.0 k.0, AllExtend-trans xs ys zs h.1 k.1)

push-AllExtend :
    (olds news : List Shard) (child : Shard)
    → AllExtend olds news
    → AllExtend olds (push news child)
unfolding push
push-AllExtend [] news child h = tt
push-AllExtend (old ∷ olds) [] child h = absurd h
push-AllExtend (old ∷ olds) (new ∷ news) child h = (h.0, push-AllExtend olds news child h.1)

modify_at-AllExtend :
    (f : Shard → Shard) (i : ℕ) (shards : List Shard)
    → ((shard : Shard) → Extends shard (f shard))
    → AllExtend shards (modify_at i f shards)
unfolding modify_at
modify_at-AllExtend f i [] h = tt
modify_at-AllExtend f zero (shard ∷ shards) h = (h shard, AllExtend-refl shards)
modify_at-AllExtend f (suc i) (shard ∷ shards) h =
    (unchanged shard, modify_at-AllExtend f i shards h)

-- What is found in the old list is found, extended, in the new one.
pub find_shard-AllExtend :
    (id : String) (front : List KinesisRecord) (olds news : List Shard)
    → AllExtend olds news
    → HasFront id front olds
    → HasFront id front news
unfolding find_shard
find_shard-AllExtend id front [] news h k = absurd (cc k.found)
find_shard-AllExtend id front (old ∷ olds) [] h k = absurd h
find_shard-AllExtend id front (old ∷ olds) (new ∷ news) (here, rest) k =
    elim (Bool-cases (old.shard_id == id)) [
      | inl hit ↦
          let same : old ≡ k.shard = cc (rw hit at k.found) in
          record {
            shard = new;
            found = rw (here.same_id, hit) refl;
            more = k.more ++ here.more;
            extends =
                here.extends
                ∙ ap (λ s. s.records ++ here.more) same
                ∙ ap (λ l. l ++ here.more) k.extends
                ∙ append_assoc front k.more here.more;
          }
      | inr miss ↦
          let ih = find_shard-AllExtend id front olds news rest record {
            shard = k.shard;
            found = rw miss at k.found;
            more = k.more;
            extends = k.extends;
          } in
          record {
            shard = ih.shard;
            found = rw (here.same_id, miss) ih.found;
            more = ih.more;
            extends = ih.extends;
          }
    ]

append_record-Extends :
    (now : ℕ) (key data_ : String) (shard : Shard)
    → Extends shard (append_record now key data_ shard)
unfolding append_record next_sequence_number
append_record-Extends now key data_ shard = record {
  same_id = refl;
  more = _;
  extends = push-append shard.records _;
}

close-Extends : (shard : Shard) → Extends shard (close shard)
close-Extends shard = record { same_id = refl; more = []; extends = sym (append-nil shard.records) }

pub put-AllExtend :
    (hash_string : String → ℕ) (now : ℕ) (key data_ : String) (s : KinesisStream)
    → Holds (λ a. AllExtend s.shards a.0.shards) (put hash_string now key data_ s)
unfolding put
put-AllExtend hash_string now key data_ s =
    elim (Option-cases (get_elem? s.shards (hash_string key % length s.shards))) [
      | inl missing ↦ rw (missing, Holds, put) tt
      | inr (shard, found) ↦
          rw (found, Holds, put)
            (modify_at-AllExtend _ _ s.shards (append_record-Extends now key data_))
    ]

pub put_all-AllExtend :
    (hash_string : String → ℕ) (now : ℕ) (entries : List (String × String)) (s : KinesisStream)
    → Holds (λ a. AllExtend s.shards a.0.shards) (put_all hash_string now entries s)
unfolding put_all
put_all-AllExtend hash_string now [] s = AllExtend-refl s.shards
put_all-AllExtend hash_string now ((key, data_) ∷ rest) s =
    elim (Option-cases (put hash_string now key data_ s)) [
      | inl missing ↦ rw (missing, put_all, Holds) tt
      | inr ((s', r), e) ↦
          let first =
            Holds-some (λ a. AllExtend s.shards a.0.shards) _ (s', r) e
              (put-AllExtend hash_string now key data_ s) in
          elim (Option-cases (put_all hash_string now rest s')) [
            | inl missing ↦ rw (e, missing, put_all, Holds) tt
            | inr ((s'', rs), e') ↦
                rw (e, e', put_all, Holds)
                  (AllExtend-trans s.shards s'.shards s''.shards first (
                    Holds-some (λ a. AllExtend s'.shards a.0.shards) _ (s'', rs) e'
                      (put_all-AllExtend hash_string now rest s')))
          ]
    ]

pub split-AllExtend :
    (id : String) (s : KinesisStream) → Holds (λ s'. AllExtend s.shards s'.shards) (split id s)
unfolding split
split-AllExtend id s = elim (Option-cases (position (λ shard. shard.shard_id == id) s.shards)) [
  | inl missing ↦ rw (missing, Holds, split) tt
  | inr (i, found) ↦
      rw (found, Holds, split)
        (push-AllExtend s.shards _ _
          (push-AllExtend s.shards _ _ (modify_at-AllExtend close i s.shards close-Extends)))
]

close_named-AllExtend :
    (a b : String) (shards : List Shard) → AllExtend shards (close_named a b shards)
unfolding close_named
close_named-AllExtend a b [] = tt
close_named-AllExtend a b (shard ∷ shards) =
    let rest = close_named-AllExtend a b shards in
    elim (Bool-cases (shard.shard_id == a || shard.shard_id == b)) [
      | inl hit ↦ rw (hit, close_named) (close-Extends shard, rest)
      | inr miss ↦ rw (miss, close_named) (unchanged shard, rest)
    ]

pub merge-AllExtend : (a b : String) (s : KinesisStream) → AllExtend s.shards (merge a b s).shards
unfolding merge
merge-AllExtend a b s = push-AllExtend s.shards _ _ (close_named-AllExtend a b s.shards)
