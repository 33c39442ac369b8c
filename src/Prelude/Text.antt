-- ===== src/Prelude/Text.antt =====
-- Operations on text that the source takes from Rust's standard library.
use Prim.Native.Nat.{ℕ, zero, suc}
use Prim.Native.Char.{code}
use Prim.Native.String.{String, [], ◌∷◌, ◌++◌}
use mathlib.Core.Path.{◌≡◌, refl}
use mathlib.Core.Logic.{◌≢◌}
use mathlib.Core.Bool.{false, Bool, ◌||◌}
use mathlib.Core.Option.{Option, none, some}
use native.Mathlib.Omega.{arith}
use text.Mathlib.Text.{◌==◌}
use text.Mathlib.TextLemmas.{nil-append, cons-append}
use mathlib.Core.Logic.{inl, inr}
use openstack.Prelude.Tests.{Bool-cases, eqb_iff, eqb, if◌then◌else◌, is_some}

-- `s.strip_prefix(p)`.
unfoldable pub strip_prefix : String → String → Option String
strip_prefix [] s = some s
strip_prefix (p ∷ ps) [] = none
strip_prefix (p ∷ ps) (c ∷ s) = if eqb (code p) (code c) then strip_prefix ps s else none

-- `s.starts_with(p)`, the prefix first.
abbrev pub has_prefix : String → String → Bool
has_prefix p s = is_some (strip_prefix p s)

-- The text behind the last `c`, or the text in `best` if there is none.
unfoldable pub after_last_from : ℕ → String → String → String
after_last_from c best [] = best
after_last_from c best (d ∷ s) = after_last_from c (if eqb (code d) c then s else best) s

-- `s.rsplit(c).next()`: the last of the parts that `c` separates.
unfoldable pub after_last : ℕ → String → String
unfolding after_last_from
after_last c s = after_last_from c s s

-- `c` does not stand in the text.
abbrev pub IsFree : ℕ → String → Type 0
IsFree c [] = Unit
IsFree c (d ∷ s) = (code d ≢ c) × IsFree c s

after_last_from-free : (c : ℕ) (best s : String) → IsFree c s → after_last_from c best s ≡ best
unfolding after_last_from
after_last_from-free c best [] h = refl
after_last_from-free c best (d ∷ s) (p, h) = ground (arith, after_last_from-free c best s h)

-- What stands behind a separator that is the last one.
pub after_last_from-append :
    (s t : String) (best : String) → IsFree b'/' t → after_last_from b'/' best (s ++ ("/" ++ t)) ≡ t
unfolding after_last_from
after_last_from-append [] t best h =
    rw (nil-append ("/" ++ t), cons-append, nil-append t) (after_last_from-free b'/' t t h)
after_last_from-append (d ∷ s) t best h =
    rw (cons-append d s ("/" ++ t)) (after_last_from-append s t _ h)

-- `s.ends_with(p)`, the suffix first.
unfoldable pub has_suffix : String → String → Bool
has_suffix p [] = p == ""
has_suffix p (c ∷ s) = (c ∷ s) == p || has_suffix p s

-- The code of the first character; the empty text has 0.
abbrev pub first_code : String → ℕ
first_code [] = 0
first_code (c ∷ s) = code c

-- `s.contains(c)` and `s.trim_start_matches(c)`, the character first.
unfoldable pub contains_char : ℕ → String → Bool
contains_char c [] = false
contains_char c (d ∷ s) = eqb (code d) c || contains_char c s

unfoldable pub trim_start_matches : ℕ → String → String
trim_start_matches c [] = ""
trim_start_matches c (d ∷ s) =
    let rest = trim_start_matches c s in if eqb (code d) c then rest else d ∷ s

-- `s.splitn(2, c)`: what stands in front of the first `c`, and what stands behind it, empty if none does.
unfoldable pub split_first : ℕ → String → String × String
split_first c [] = ("", "")
split_first c (d ∷ s) =
    let (front, back) = split_first c s in if eqb (code d) c then ("", s) else (d ∷ front, back)

pub split_first-append :
    (a b : String) → IsFree b':' a → split_first b':' (a ++ (":" ++ b)) ≡ (a, b)
unfolding split_first
split_first-append [] b h = rw (nil-append (":" ++ b), cons-append, nil-append b) refl
split_first-append (d ∷ a) b (p, h) = elim (Bool-cases (eqb (code d) b':')) [
  | inl hit ↦ absurd (p ((eqb_iff (code d) b':').0 hit))
  | inr miss ↦ rw (cons-append d a (":" ++ b), miss, split_first-append a b h) refl
]

-- `s.trim_start_matches(p)` of a text `p`, with as many rounds as `n` allows.
unfoldable pub trim_prefixes : ℕ → String → String → String
unfolding strip_prefix
trim_prefixes zero p s = s
trim_prefixes (suc n) p s = elim (strip_prefix p s) [
  | none ↦ s
  | some rest ↦ trim_prefixes n p rest
]

-- `&s[..n]` of text without multi-byte characters.
unfoldable pub take_chars : ℕ → String → String
take_chars zero s = ""
take_chars (suc n) [] = ""
take_chars (suc n) (c ∷ s) = c ∷ take_chars n s
