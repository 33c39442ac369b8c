-- ===== src/Prelude/Lists.antt =====
-- Lists measured and indexed by native numbers, under the library's names, and predicates on them.
use Prim.Native.Nat.{ℕ, zero, suc, ◌+◌, ◌≤◌}
use mathlib.Core.Path.{◌≡◌}
use mathlib.Core.Logic.{◌≢◌}
use mathlib.Core.Bool.{Bool, true, false, not, ◌||◌}
use mathlib.Core.Option.{Option, none, some}
use mathlib.Core.List.{List, [], ◌∷◌, ◌++◌, map}
use native.Mathlib.Omega.{arith}
use openstack.Prelude.Tests.{if◌then◌else◌}

module _ {ℓ} {A : Type ℓ} where
  abbrev pub length : List A → ℕ
  length [] = 0
  length (x ∷ xs) = suc (length xs)

  abbrev pub get_elem? : List A → ℕ → Option A
  get_elem? [] i = none
  get_elem? (x ∷ xs) zero = some x
  get_elem? (x ∷ xs) (suc i) = get_elem? xs i

  abbrev pub take : ℕ → List A → List A
  take zero xs = []
  take (suc n) [] = []
  take (suc n) (x ∷ xs) = x ∷ take n xs

  -- `skip(n)`.
  abbrev pub drop : ℕ → List A → List A
  drop zero xs = xs
  drop (suc n) [] = []
  drop (suc n) (x ∷ xs) = drop n xs

  -- `push` and `push_back`.
  unfoldable pub push : List A → A → List A
  push [] y = y ∷ []
  push (x ∷ xs) y = x ∷ push xs y

  -- A write through `&mut xs[i]`; out of range the source panics, and its callers see to that.
  unfoldable pub modify_at : ℕ → (A → A) → List A → List A
  modify_at i f [] = []
  modify_at zero f (x ∷ xs) = f x ∷ xs
  modify_at (suc i) f (x ∷ xs) = x ∷ modify_at i f xs

  -- `position`.
  unfoldable pub position : (A → Bool) → List A → Option ℕ
  position p [] = none
  position p (x ∷ xs) =
      let rest : Option ℕ = elim (position p xs) [ none ↦ none | some i ↦ some (suc i) ] in
      if p x then some 0 else rest

  abbrev pub is_nil : List A → Bool
  is_nil [] = true
  is_nil (x ∷ xs) = false

  abbrev pub any : (A → Bool) → List A → Bool
  any p [] = false
  any p (x ∷ xs) = p x || any p xs

  -- `retain`, and `filter` followed by `collect`.
  abbrev pub retain : (A → Bool) → List A → List A
  retain p [] = []
  retain p (x ∷ xs) = if p x then x ∷ retain p xs else retain p xs

  abbrev pub count_if : (A → Bool) → List A → ℕ
  count_if p [] = 0
  count_if p (x ∷ xs) = if p x then suc (count_if p xs) else count_if p xs

  abbrev pub find_if : (A → Bool) → List A → Option A
  find_if p [] = none
  find_if p (x ∷ xs) = if p x then some x else find_if p xs

  pub length-append : (xs ys : List A) → length (xs ++ ys) ≡ length xs + length ys
  length-append [] ys = omega arith
  length-append (x ∷ xs) ys = omega (arith, length-append xs ys)

  pub length-take-le : (n : ℕ) (xs : List A) → length (take n xs) ≤ n
  length-take-le zero xs = omega arith
  length-take-le (suc n) [] = omega arith
  length-take-le (suc n) (x ∷ xs) = omega (arith, length-take-le n xs)

  -- An element passes a test or its negation.
  pub count_if-add-not :
      (p : A → Bool) (xs : List A) → count_if p xs + count_if (λ x. not (p x)) xs ≡ length xs
  count_if-add-not p [] = omega arith
  count_if-add-not p (x ∷ xs) = ground (arith, count_if-add-not p xs)

module _ {ℓ κ} {A : Type ℓ} where
  -- A predicate by recursion computes to tuples, which the tactics read and build.
  abbrev pub All : (A → Type κ) → List A → Type κ
  All P [] = Unit
  All P (x ∷ xs) = P x × All P xs

  pub All-retain : (P : A → Type κ) (p : A → Bool) (xs : List A) → All P xs → All P (retain p xs)
  All-retain P p [] h = tt
  All-retain P p (x ∷ xs) h = keep (p x) (All-retain P p xs h.1)
    where
      keep : (b : Bool) → All P (retain p xs) → All P (if b then x ∷ retain p xs else retain p xs)
      keep true rest = (h.0, rest)
      keep false rest = rest

  pub All-map : (P Q : A → Type κ) → ((x : A) → P x → Q x) → (xs : List A) → All P xs → All Q xs
  All-map P Q f [] h = tt
  All-map P Q f (x ∷ xs) h = (f x h.0, All-map P Q f xs h.1)

  pub All-get_elem? :
      (P : A → Type κ) (xs : List A) (i : ℕ) (x : A) → All P xs → get_elem? xs i ≡ some x → P x
  All-get_elem? P [] i x h e = elim (absurd_none e) [ ]
    where
      absurd_none : none ≡ some x → ⊥
      absurd_none q = cc
  All-get_elem? P (y ∷ ys) zero x h e = rw (← some_eq e) h.0
    where
      some_eq : some y ≡ some x → y ≡ x
      some_eq q = cc
  All-get_elem? P (y ∷ ys) (suc i) x h e = All-get_elem? P ys i x h.1 e

  pub All-take : (P : A → Type κ) (n : ℕ) (xs : List A) → All P xs → All P (take n xs)
  All-take P zero xs h = tt
  All-take P (suc n) [] h = tt
  All-take P (suc n) (x ∷ xs) h = (h.0, All-take P n xs h.1)

module _ {ℓ} {A : Type ℓ} where
  -- No entry of the one list stands in the other.
  abbrev pub Disjoint : List A → List A → Type ℓ
  Disjoint xs ys = All (λ x. All (λ y. x ≢ y) ys) xs

  -- Each entry is related to all behind it.
  abbrev pub Pairwise {κ} : (A → A → Type κ) → List A → Type κ
  Pairwise R [] = Unit
  Pairwise R (x ∷ xs) = All (R x) xs × Pairwise R xs

  -- No two entries are equal.
  abbrev pub IsDistinct : List A → Type ℓ
  IsDistinct xs = Pairwise (λ x y. x ≢ y) xs

module _ {ℓ κ} {A : Type ℓ} {B : Type κ} where
  pub All-map-retain {ι} :
      (P : B → Type ι) (f : A → B) (p : A → Bool) (xs : List A)
      → All P (map f xs)
      → All P (map f (retain p xs))
  All-map-retain P f p [] h = tt
  All-map-retain P f p (x ∷ xs) (h, hs) = keep (p x) (All-map-retain P f p xs hs)
    where
      keep :
          (b : Bool)
          → All P (map f (retain p xs))
          → All P (map f (if b then x ∷ retain p xs else retain p xs))
      keep true rest = (h, rest)
      keep false rest = rest

  pub Pairwise-map-retain {ι} :
      (R : B → B → Type ι) (f : A → B) (p : A → Bool) (xs : List A)
      → Pairwise R (map f xs)
      → Pairwise R (map f (retain p xs))
  Pairwise-map-retain R f p [] h = tt
  Pairwise-map-retain R f p (x ∷ xs) (h, hs) =
      keep (p x) (All-map-retain (R (f x)) f p xs h) (Pairwise-map-retain R f p xs hs)
    where
      keep :
          (b : Bool)
          → All (R (f x)) (map f (retain p xs))
          → Pairwise R (map f (retain p xs))
          → Pairwise R (map f (if b then x ∷ retain p xs else retain p xs))
      keep true a rest = (a, rest)
      keep false a rest = rest
