-- ===== src/Sqs/Params/Enough.antt =====
-- The fuel of the loops over indexed parameters.
use text.Mathlib.TextLemmas.{append_cancel_left, append_cancel_right}
use native.Mathlib.Decide.{dec_lt}
use openstack.Prelude.{
  ℕ, zero, suc, ◌+◌, ◌≤◌, ◌<◌, ◌≡◌, ◌≢◌, refl, ap, sym, ◌∙◌, true, ◌%◌, ◌^◌, ltb, String, Option,
  none, some, [], ◌∷◌, Dict, get, remove, get-remove, length, inl, inr, Option-cases, Bool-cases,
  arith, ◌==◌, eq_iff,
}
use openstack.Prelude.Format.{to_string, to_string-injective}
use openstack.Sqs.Params.{
  Params, print_index, indexed_key, entries, all_entries, name_value_at, message_attribute_at,
}

abbrev index_bound : ℕ
index_bound = 2147483648

-- An index below the end of `i32` is printed as it is.
print_index-eq-to_string : (i : ℕ) → i < index_bound → print_index i ≡ to_string i
unfolding print_index
print_index-eq-to_string i p =
    let same : i % 2 ^ 32 ≡ i = omega (arith, p) in
    let fits : ltb i (2 ^ 31) ≡ true = ground arith in rw (same, fits) refl

indexed_key-injective :
    (prefix suffix : String) (i j : ℕ)
    → i < index_bound
    → j < index_bound
    → indexed_key prefix i suffix ≡ indexed_key prefix j suffix
    → i ≡ j
unfolding indexed_key
indexed_key-injective prefix suffix i j p q e =
    let texts =
      append_cancel_right _ _ suffix
        (append_cancel_left "." _ _ (append_cancel_left prefix _ _ e)) in
    to_string-injective i j (omega arith) (omega arith)
      (sym (print_index-eq-to_string i p) ∙ texts ∙ print_index-eq-to_string j q)

length-remove-le {ℓ} : {V : Type ℓ} (k : String) (m : Dict V) → length (remove k m) ≤ length m
unfolding remove
length-remove-le k [] = omega arith
length-remove-le k ((j, v) ∷ m) = ground (arith, length-remove-le k m)

length-remove-lt {ℓ} :
    {V : Type ℓ} (k : String) (m : Dict V) → get k m ≢ none → length (remove k m) < length m
unfolding remove get
length-remove-lt k [] h = absurd (h refl)
length-remove-lt k ((j, v) ∷ m) h = elim (Bool-cases (j == k)) [
  | inl same ↦ rw same (omega (arith, length-remove-le k m))
  | inr other ↦ rw other (omega (arith, length-remove-lt k m (rw other at h)))
]

-- A run of indices that are all there is no longer than the map.
run-le-length {ℓ} :
    {V : Type ℓ} (prefix suffix : String) (n i : ℕ) (m : Dict V)
    → i + n < index_bound
    → ((j : ℕ) → i ≤ j → j < i + n → get (indexed_key prefix j suffix) m ≢ none)
    → n ≤ length m
run-le-length prefix suffix zero i m room h = omega arith
run-le-length prefix suffix (suc n) i m room h =
    let k = indexed_key prefix i suffix in
    omega (
      arith,
      length-remove-lt k m (h i (omega arith) (omega arith)),
      run-le-length prefix suffix n (i + 1) (remove k m) (omega arith) later,
    )
  where
    later :
        (j : ℕ)
        → i + 1 ≤ j
        → j < i + 1 + n
        → get (indexed_key prefix j suffix) (remove (indexed_key prefix i suffix) m) ≢ none
    later j le lt =
        let k = indexed_key prefix i suffix in
        let other = indexed_key prefix j suffix in
        elim (Bool-cases (k == other)) [
          | inl same ↦ absurd (
              omega (
                arith,
                indexed_key-injective prefix suffix i j (omega arith) (omega arith)
                    ((eq_iff k other).0 same),
              ))
          | inr differ ↦ rw (get-remove k other m, differ) (h j (omega arith) (omega arith))
        ]

-- `n` entries in a row, from `i` on.
abbrev Present {ℓ} : {A : Type ℓ} → (ℕ → Option A) → ℕ → ℕ → Type ℓ
Present find i zero = Unit
Present {A} find i (suc n) = ((a : A) × (find i ≡ some a)) × Present find (i + 1) n

Present-at {ℓ} :
    {A : Type ℓ} (find : ℕ → Option A) (n i j : ℕ)
    → Present find i n
    → i ≤ j
    → j < i + n
    → find j ≢ none
Present-at find zero i j p le lt missing = absurd (omega arith)
Present-at find (suc n) i j ((a, here), p) le lt missing = elim (dec_lt i j) [
  | yes before ↦ Present-at find n (i + 1) j p (omega arith) (omega arith) missing
  | no at ↦ let e : i ≡ j = omega arith in absurd (cc (ap find e))
]

-- Fuel past the longest run makes no difference.
entries-fuel {ℓ} :
    {A : Type ℓ} (find : ℕ → Option A) (fuel more i : ℕ)
    → ((n : ℕ) → Present find i n → n < fuel)
    → fuel ≤ more
    → entries more find i ≡ entries fuel find i
unfolding entries
entries-fuel find zero more i h le = absurd (omega (arith, h 0 tt))
entries-fuel find (suc fuel) zero i h le = absurd (omega arith)
entries-fuel find (suc fuel) (suc more) i h le = elim (Option-cases (find i)) [
  | inl missing ↦ rw (missing, entries)
  | inr (a, here) ↦
      rw (here, entries)
        (ap (λ l. a ∷ l)
          (entries-fuel find fuel more (i + 1) (λ n p. omega (arith, h (suc n) ((a, here), p)))
            (omega arith)))
]

-- Where every entry has a parameter of its own, the rounds that `all_entries` gives are enough.
pub all_entries-enough {ℓ} :
    {A : Type ℓ} (params : Params) (prefix suffix : String) (find : ℕ → Option A) (more : ℕ)
    → length params + 2 < index_bound
    → ((i : ℕ) → find i ≢ none → get (indexed_key prefix i suffix) params ≢ none)
    → length params + 1 ≤ more
    → entries more find 1 ≡ all_entries params find
unfolding all_entries
all_entries-enough params prefix suffix find more room own le =
    entries-fuel find (length params + 1) more 1 short le
  where
    short : (n : ℕ) → Present find 1 n → n < length params + 1
    short n p = elim (dec_lt n (length params + 1)) [
      | yes below ↦ below
      | no above ↦ absurd (
          omega (
            arith,
            run-le-length prefix suffix (length params + 1) 1 params (omega arith)
                (λ j lo hi. own j (Present-at find n 1 j p lo (omega arith))),
          ))
    ]

-- `extract_indexed_kv` and `extract_message_attributes` stop by themselves: with fewer than
-- 2 ^ 31 - 2 parameters, which leaves the index of the loops below the end of `i32`, more rounds than
-- there are parameters find nothing more.
pub extract_loops_end :
    (params : Params) (prefix : String) (more : ℕ)
    → length params + 2 < index_bound
    → length params + 1 ≤ more
    → (entries more (name_value_at params prefix) 1
        ≡ all_entries params (name_value_at params prefix))
      × (entries more (message_attribute_at params) 1
          ≡ all_entries params (message_attribute_at params))
unfolding name_value_at message_attribute_at
extract_loops_end params prefix more room le = (
  all_entries-enough params prefix ".Name" (name_value_at params prefix) more room
      (λ i found missing. found (rw (missing, name_value_at))) le,
  all_entries-enough params "MessageAttribute" ".Name" (message_attribute_at params) more room
      (λ i found missing. found (rw (missing, message_attribute_at))) le,
)
