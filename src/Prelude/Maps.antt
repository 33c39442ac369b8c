-- ===== src/Prelude/Maps.antt =====
-- A hash map with text keys, as an association list. Its order stands for the unspecified order
-- in which the map is walked.
use mathlib.Core.Path.{◌≡◌, refl}
use mathlib.Core.Bool.{Bool, true}
use mathlib.Core.Option.{Option, none, some}
use mathlib.Core.List.{all, List, [], ◌∷◌}
use Prim.Native.String.{String}
use native.Mathlib.Omega.{arith}
use text.Mathlib.Text.{◌==◌}
use text.Mathlib.TextEquality.{eq_iff}
use openstack.Prelude.Tests.{if◌then◌else◌, is_some, Bool-cases, unwrap_or}
use openstack.Prelude.Lists.{All}
use mathlib.Core.Logic.{inl, inr}
use mathlib.Core.Path.{ap, subst}

abbrev pub Dict {ℓ} : Type ℓ → Type ℓ
Dict V = List (String × V)

module _ {ℓ} {V : Type ℓ} where
  unfoldable pub get : String → Dict V → Option V
  get k [] = none
  get k ((j, v) ∷ m) = if j == k then some v else get k m

  -- `insert`, and a write through `get_mut`: the entry of a present key stays in its place.
  unfoldable pub insert : String → V → Dict V → Dict V
  insert k v [] = (k, v) ∷ []
  insert k v ((j, w) ∷ m) = let rest = insert k v m in if j == k then (k, v) ∷ m else (j, w) ∷ rest

  unfoldable pub remove : String → Dict V → Dict V
  remove k [] = []
  remove k ((j, v) ∷ m) = let rest = remove k m in if j == k then rest else (j, v) ∷ rest

  abbrev pub values : Dict V → List V
  values [] = []
  values ((j, v) ∷ m) = v ∷ values m

  abbrev pub contains_key : String → Dict V → Bool
  contains_key k m = is_some (get k m)

  pub get-nil : (k : String) → get k [] ≡ none
  unfolding get
  get-nil k = refl

  pub get-insert :
      (k j : String) (v : V) (m : Dict V)
      → get j (insert k v m) ≡ (if k == j then some v else get j m)
  unfolding get insert
  get-insert k j v [] = refl
  get-insert k j v ((i, w) ∷ m) =
      ground (arith, eq_iff k j, eq_iff i k, eq_iff i j, get-insert k j v m)

  pub get-remove :
      (k j : String) (m : Dict V) → get j (remove k m) ≡ (if k == j then none else get j m)
  unfolding get remove
  get-remove k j [] = ground arith
  get-remove k j ((i, w) ∷ m) = ground (arith, get-remove k j m, eq_iff i k, eq_iff i j, eq_iff k j)

  -- What holds of every value of the map holds of one that is found.
  pub get-All {κ} :
      (P : V → Type κ) (k : String) (m : Dict V) (v : V)
      → get k m ≡ some v
      → All (λ e. P e.1) m
      → P v
  unfolding get
  get-All P k [] v found all = absurd (cc found)
  get-All P k ((j, w) ∷ m) v found (here, all) = elim (Bool-cases (j == k)) [
    | inl same ↦ let e = rw same at found in subst P (ap (λ o. unwrap_or o w) e) here
    | inr other ↦ get-All P k m v (rw other at found) all
  ]

module _ {ℓ κ} {V : Type ℓ} (P : V → Type κ) (k : String) where
  pub insert-All : (v : V) (m : Dict V) → P v → All (λ e. P e.1) m → All (λ e. P e.1) (insert k v m)
  unfolding insert
  insert-All v [] p h = (p, tt)
  insert-All v ((j, w) ∷ m) p (here, rest) = elim (Bool-cases (j == k)) [
    | inl same ↦ rw same (p, rest)
    | inr other ↦ rw other (here, insert-All v m p rest)
  ]

  pub remove-All : (m : Dict V) → All (λ e. P e.1) m → All (λ e. P e.1) (remove k m)
  unfolding remove
  remove-All [] h = tt
  remove-All ((j, w) ∷ m) (here, rest) = elim (Bool-cases (j == k)) [
    | inl same ↦ rw same (remove-All m rest)
    | inr other ↦ rw other (here, remove-All m rest)
  ]

-- The same of predicates that read the key too.
module _ {ℓ κ} {V : Type ℓ} (P : String → V → Type κ) (k : String) where
  pub insert-AllAt :
      (v : V) (m : Dict V) → P k v → All (λ e. P e.0 e.1) m → All (λ e. P e.0 e.1) (insert k v m)
  unfolding insert
  insert-AllAt v [] p h = (p, tt)
  insert-AllAt v ((j, w) ∷ m) p (here, rest) = elim (Bool-cases (j == k)) [
    | inl same ↦ rw same (p, rest)
    | inr other ↦ rw other (here, insert-AllAt v m p rest)
  ]

  pub remove-AllAt : (m : Dict V) → All (λ e. P e.0 e.1) m → All (λ e. P e.0 e.1) (remove k m)
  unfolding remove
  remove-AllAt [] h = tt
  remove-AllAt ((j, w) ∷ m) (here, rest) = elim (Bool-cases (j == k)) [
    | inl same ↦ rw same (remove-AllAt m rest)
    | inr other ↦ rw other (here, remove-AllAt m rest)
  ]

  pub get-AllAt : (m : Dict V) (v : V) → get k m ≡ some v → All (λ e. P e.0 e.1) m → P k v
  unfolding get
  get-AllAt [] v found h = absurd (cc found)
  get-AllAt ((j, w) ∷ m) v found (here, rest) = elim (Bool-cases (j == k)) [
    | inl same ↦
        let value : w ≡ v = cc (rw same at found) in
        subst (λ x. P k x) value (subst (λ x. P x w) ((eq_iff j k).0 same) here)
    | inr other ↦ get-AllAt m v (rw other at found) rest
  ]

-- What is in the map stays in it.
pub contains_key-insert {ℓ} :
    {V : Type ℓ} (k j : String) (v : V) (m : Dict V)
    → contains_key j m ≡ true
    → contains_key j (insert k v m) ≡ true
contains_key-insert k j v m h = elim (Bool-cases (k == j)) [
  | inl same ↦ rw (get-insert k j v m, same) refl
  | inr other ↦ rw (get-insert k j v m, other) h
]

pub ruleset dict_laws = (get-nil, get-insert, get-remove)
