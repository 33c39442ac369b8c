-- ===== src/Prelude/Numbered.antt =====
-- Lists that grow at their end and whose elements carry the numbers of their positions.
use Prim.Native.Nat.{ℕ, zero, suc, ◌+◌, ◌<◌}
use mathlib.Core.Path.{◌≡◌, refl, sym, ap, subst, ◌∙◌}
use mathlib.Core.Logic.{inl, inr}
use mathlib.Core.Bool.{true}
use mathlib.Core.Option.{none, some}
use mathlib.Core.List.{List, [], ◌∷◌, ◌++◌}
use Prim.Native.String.{String}
use native.Mathlib.Omega.{arith}
use text.Mathlib.Text.{◌==◌}
use text.Mathlib.TextEquality.{eq_iff}
use openstack.Prelude.Tests.{Bool-cases}
use openstack.Prelude.Lists.{length, get_elem?, push, modify_at, position, take, drop, All}

module _ {ℓ} {A : Type ℓ} where
  pub push-append : (xs : List A) (y : A) → push xs y ≡ xs ++ (y ∷ [])
  unfolding push
  push-append [] y = refl
  push-append (x ∷ xs) y = ap (λ zs. x ∷ zs) (push-append xs y)

  pub length-push : (xs : List A) (y : A) → length (push xs y) ≡ suc (length xs)
  unfolding push
  length-push [] y = refl
  length-push (x ∷ xs) y = ap (λ n. suc n) (length-push xs y)

  pub length-modify_at : (i : ℕ) (f : A → A) (xs : List A) → length (modify_at i f xs) ≡ length xs
  unfolding modify_at
  length-modify_at i f [] = refl
  length-modify_at zero f (x ∷ xs) = refl
  length-modify_at (suc i) f (x ∷ xs) = ap (λ n. suc n) (length-modify_at i f xs)

  pub All-push {κ} : (P : A → Type κ) (xs : List A) (y : A) → All P xs → P y → All P (push xs y)
  unfolding push
  All-push P [] y h p = (p, tt)
  All-push P (x ∷ xs) y h p = (h.0, All-push P xs y h.1 p)

  pub All-modify_at {κ} :
      (P : A → Type κ) (f : A → A) (i : ℕ) (xs : List A)
      → ((x : A) → P x → P (f x))
      → All P xs
      → All P (modify_at i f xs)
  unfolding modify_at
  All-modify_at P f i [] keep h = tt
  All-modify_at P f zero (x ∷ xs) keep h = (keep x h.0, h.1)
  All-modify_at P f (suc i) (x ∷ xs) keep h = (h.0, All-modify_at P f i xs keep h.1)

module _ {ℓ} {A : Type ℓ} (name : A → String) (text : ℕ → String) where
  -- The elements are named by `text` from `i` on, one number after the other.
  abbrev pub IsNumbered : ℕ → List A → Type 0
  IsNumbered i [] = Unit
  IsNumbered i (x ∷ xs) = (name x ≡ text i) × IsNumbered (suc i) xs

  pub push-IsNumbered :
      (i : ℕ) (xs : List A) (y : A)
      → IsNumbered i xs
      → name y ≡ text (i + length xs)
      → IsNumbered i (push xs y)
  unfolding push
  push-IsNumbered i [] y h e = (e ∙ ap text (omega arith), tt)
  push-IsNumbered i (x ∷ xs) y h e =
      (h.0, push-IsNumbered (suc i) xs y h.1 (e ∙ ap text (omega arith)))

  pub modify_at-IsNumbered :
      (f : A → A) (i j : ℕ) (xs : List A)
      → ((x : A) → name (f x) ≡ name x)
      → IsNumbered i xs
      → IsNumbered i (modify_at j f xs)
  unfolding modify_at
  modify_at-IsNumbered f i j [] same h = tt
  modify_at-IsNumbered f i zero (x ∷ xs) same h = (same x ∙ h.0, h.1)
  modify_at-IsNumbered f i (suc j) (x ∷ xs) same h =
      (h.0, modify_at-IsNumbered f (suc i) j xs same h.1)

  -- The position that a name is found at, where `text` repeats no name below `bound`.
  pub position-IsNumbered :
      (bound i k : ℕ) (xs : List A)
      → ((a b : ℕ) → a < bound → b < bound → text a ≡ text b → a ≡ b)
      → IsNumbered i xs
      → k < length xs
      → i + k < bound
      → position (λ x. name x == text (i + k)) xs ≡ some k
  unfolding position
  position-IsNumbered bound i k [] inj h lt room = absurd (omega arith)
  position-IsNumbered bound i zero (x ∷ xs) inj h lt room =
      let same : (name x == text (i + 0)) ≡ true =
        (eq_iff (name x) (text (i + 0))).1 (h.0 ∙ ap text (omega arith)) in
      rw (same, position) refl
  position-IsNumbered bound i (suc k) (x ∷ xs) inj h lt room =
      elim (Bool-cases (name x == text (i + suc k))) [
        | inl hit ↦
            let e = (eq_iff (name x) (text (i + suc k))).0 hit in
            let clash : i ≡ i + suc k = inj i (i + suc k) (omega arith) room (sym h.0 ∙ e) in
            absurd (omega (arith, clash))
        | inr miss ↦
            let ih = position-IsNumbered bound (suc i) k xs inj h.1 (omega arith) (omega arith) in
            rw miss (
              found xs (i + suc k)
                (subst (λ n. position (λ x. name x == text n) xs ≡ some k) (omega arith) ih))
      ]
    where
      found :
          (xs : List A) (n : ℕ)
          → position (λ x. name x == text n) xs ≡ some k
          → elim (position (λ x. name x == text n) xs) [ none ↦ none | some j ↦ some (suc j) ]
            ≡ some (suc k)
      found xs n e = rw e refl

  pub get_elem?-IsNumbered :
      (i k : ℕ) (xs : List A) (x : A)
      → IsNumbered i xs
      → get_elem? xs k ≡ some x
      → name x ≡ text (i + k)
  get_elem?-IsNumbered i k [] x h e = absurd (cc e)
  get_elem?-IsNumbered i zero (y ∷ ys) x h e =
      let same : y ≡ x = cc e in ap name (sym same) ∙ h.0 ∙ ap text (omega arith)
  get_elem?-IsNumbered i (suc k) (y ∷ ys) x h e =
      get_elem?-IsNumbered (suc i) k ys x h.1 e ∙ ap text (omega arith)

module _ {ℓ} {A : Type ℓ} where
  pub get_elem?-lt : (k : ℕ) (xs : List A) (x : A) → get_elem? xs k ≡ some x → k < length xs
  get_elem?-lt k [] x e = absurd (cc e)
  get_elem?-lt zero (y ∷ ys) x e = omega arith
  get_elem?-lt (suc k) (y ∷ ys) x e = omega (arith, get_elem?-lt k ys x e)

  pub take-append-drop : (n : ℕ) (xs : List A) → take n xs ++ drop n xs ≡ xs
  take-append-drop zero xs = refl
  take-append-drop (suc n) [] = refl
  take-append-drop (suc n) (x ∷ xs) = ap (λ l. x ∷ l) (take-append-drop n xs)

  pub drop-length-append : (xs ys : List A) → drop (length xs) (xs ++ ys) ≡ ys
  drop-length-append [] ys = refl
  drop-length-append (x ∷ xs) ys = drop-length-append xs ys
