-- ===== src/Kms/Random.antt =====
-- The random texts of crates/services/kms/src/provider.rs.
use text.Mathlib.TextLemmas.{nil-append, cons-append}
use Prim.Native.String.{[], ◌∷◌}
use Prim.Native.Nat.{◌≤◌}
use openstack.Prelude.{
  ℕ, zero, suc, ◌+◌, ◌-◌, ◌*◌, ◌/◌, ◌%◌, String, ◌++◌, ◌≡◌, refl, ap, ◌∙◌, arith, ◌^◌, ◌<◌, true,
  Option, none, some, ltb, inl, inr, Bool-cases,
}
use openstack.Prelude.Format.{hex_pad, hex_acc, hex_digit}
use openstack.Prelude.Text.{take_chars}
use openstack.Kms.Handlers.Keys.{rand_rounds, rand_hex}

-- The number of characters of a text.
unfoldable pub size : String → ℕ
size [] = 0
size (c ∷ s) = suc (size s)

size-append : (s t : String) → size (s ++ t) ≡ size s + size t
unfolding size
size-append [] t = ap size (nil-append t) ∙ omega arith
size-append (c ∷ s) t = ap size (cons-append c s t) ∙ omega (arith, size-append s t)

size-hex_acc : (w n : ℕ) (acc : String) → size (hex_acc w n acc) ≡ w + size acc
unfolding size hex_acc
size-hex_acc zero n acc = omega arith
size-hex_acc (suc w) n acc = omega (arith, size-hex_acc w (n / 16) (hex_digit (n % 16) ∷ acc))

size-hex_pad : (w n : ℕ) → size (hex_pad w n) ≡ w
unfolding size hex_pad
size-hex_pad w n = omega (arith, size-hex_acc w n "")

size-take_chars : (n : ℕ) (s : String) → n ≤ size s → size (take_chars n s) ≡ n
unfolding size take_chars
size-take_chars zero s h = refl
size-take_chars (suc n) [] h = absurd (omega arith)
size-take_chars (suc n) (c ∷ s) h = omega (arith, size-take_chars n s (omega arith))

-- One round, and what the rounds after it give.
size-round :
    (hash_string : String → ℕ) (s rest : String) (taken left : ℕ)
    → taken ≤ 8
    → size rest ≡ left * 2
    → size (take_chars (taken * 2) (hex_pad 16 (hash_string s)) ++ rest) ≡ (taken + left) * 2
size-round hash_string s rest taken left h e =
    let chunk = hex_pad 16 (hash_string s) in
    let all = size-hex_pad 16 (hash_string s) in
    omega (
      arith,
      size-append (take_chars (taken * 2) chunk) rest,
      e,
      size-take_chars (taken * 2) chunk (omega (arith, all)),
    )

size-rand_rounds :
    (hash_string : String → ℕ) (fuel remaining : ℕ) (s : String)
    → remaining ≤ fuel
    → size (rand_rounds hash_string fuel remaining s) ≡ remaining * 2
unfolding rand_rounds size
size-rand_rounds hash_string zero zero s h = refl
size-rand_rounds hash_string zero (suc more) s h = absurd (omega arith)
size-rand_rounds hash_string (suc fuel) zero s h = refl
size-rand_rounds hash_string (suc fuel) (suc more) s h =
    let chunk = hex_pad 16 (hash_string s) in
    elim (Bool-cases (ltb (suc more) 8)) [
      | inl few ↦
          let rest = size-rand_rounds hash_string fuel (suc more - suc more) chunk (omega arith) in
          rw (few, rand_rounds)
            (size-round hash_string s _ (suc more) (suc more - suc more) (ground arith) rest
              ∙ omega arith)
      | inr many ↦
          let rest = size-rand_rounds hash_string fuel (suc more - 8) chunk (omega arith) in
          let enough : 8 ≤ suc more = ground arith in
          rw (many, rand_rounds)
            (size-round hash_string s _ 8 (suc more - 8) (omega arith) rest ∙ omega arith)
    ]

-- What is asked of a text that may be none.
abbrev pub option_map : (String → ℕ) → Option String → Option ℕ
option_map f none = none
option_map f (some s) = some (f s)

-- A random text of fewer than 2 ^ 62 bytes is made without a capacity overflow and has two digits for
-- each byte, so that the rounds end with nothing left to do, whatever the hash gives.
pub size-rand_hex :
    (hash_string : String → ℕ) (bytes : ℕ) (seed : String)
    → bytes < 2 ^ 62
    → option_map size (rand_hex hash_string bytes seed) ≡ some (bytes * 2)
unfolding rand_hex
size-rand_hex hash_string bytes seed room =
    let fits : ltb ((bytes * 2) % 2 ^ 64) (2 ^ 63) ≡ true = ground arith in
    rw (fits, rand_hex) (ap some (size-rand_rounds hash_string bytes bytes seed (omega arith)))
