-- ===== src/Prelude/Format.antt =====
-- Numbers as text: `{:0wx}` and `to_string` of Rust's formatting, and `str::parse` of unsigned
-- integers.
use Prim.Native.Nat.{◌≤◌, ℕ, zero, suc, ◌+◌, ◌-◌, ◌*◌, ◌/◌, ◌%◌, ◌<◌}
use Prim.Native.Char.{Char, char, code}
use Prim.Native.String.{len, String, [], ◌∷◌, ◌++◌}
use mathlib.Core.Path.{◌≡◌, refl, sym, ap, ◌∙◌}
use mathlib.Core.Bool.{Bool, true, ◌&&◌}
use mathlib.Core.Option.{Option, none, some}
use native.Mathlib.Decide.{dec_le}
use native.Mathlib.Omega.{arith}
use text.Mathlib.TextLemmas.{nil-append, cons-append, head-eq_of_cons-eq, tail-eq_of_cons-eq}
use mathlib.Core.Logic.{inl, inr}
use openstack.Prelude.Tests.{Bool-cases, ltb, leb, eqb, eqb_iff, if◌then◌else◌}

pick : ℕ → String → Char
pick i [] = char 48 tt
pick zero (c ∷ s) = c
pick (suc i) (c ∷ s) = pick i s

-- The digits 0 to 15 of `{:x}`.
unfoldable pub hex_digit : ℕ → Char
unfolding pick
hex_digit n = pick n "0123456789abcdef"

unfoldable pub hex_acc : ℕ → ℕ → String → String
hex_acc zero n acc = acc
hex_acc (suc w) n acc = hex_acc w (n / 16) (hex_digit (n % 16) ∷ acc)

-- `{:0wx}` of a number below 16 ^ w.
unfoldable pub hex_pad : ℕ → ℕ → String
unfolding hex_acc hex_digit
hex_pad w n = hex_acc w n ""

-- `n` has at most `w` hexadecimal digits.
abbrev pub FitsHex : ℕ → ℕ → Type 0
FitsHex zero n = n ≡ 0
FitsHex (suc w) n = FitsHex w (n / 16)

-- The value of a digit.
unhex : ℕ → ℕ
unhex c = if ltb c 58 then c - 48 else c - 87

-- The test holds of 0 to `d`.
passes_up_to : (ℕ → Bool) → ℕ → Bool
passes_up_to test zero = test 0
passes_up_to test (suc d) = passes_up_to test d && test (suc d)

passes_up_to-each : (test : ℕ → Bool) (d k : ℕ) → k ≤ d → passes_up_to test d ≡ true → test k ≡ true
unfolding passes_up_to
passes_up_to-each test zero zero le all = all
passes_up_to-each test zero (suc k) le all = absurd (omega arith)
passes_up_to-each test (suc d) k le all = elim (dec_le k d) [
  | yes before ↦ passes_up_to-each test d k before (ground arith)
  | no last ↦ let e : k ≡ suc d = omega arith in rw e (ground arith)
]

unhex_table : passes_up_to (λ d. eqb (unhex (code (hex_digit d))) d) 15 ≡ true
unfolding passes_up_to unhex hex_digit
unhex_table = refl

unhex-hex_digit : (d : ℕ) → d < 16 → unhex (code (hex_digit d)) ≡ d
unhex-hex_digit d h = (eqb_iff _ d).0 (passes_up_to-each _ 15 d (omega arith) unhex_table)

hex_digit-injective : (a b : ℕ) → a < 16 → b < 16 → hex_digit a ≡ hex_digit b → a ≡ b
hex_digit-injective a b p q e =
    sym (unhex-hex_digit a p) ∙ ap (λ c. unhex (code c)) e ∙ unhex-hex_digit b q

pub hex_acc-injective :
    (w a b : ℕ) (s t : String)
    → FitsHex w a
    → FitsHex w b
    → hex_acc w a s ≡ hex_acc w b t
    → (a ≡ b) × (s ≡ t)
unfolding hex_acc
hex_acc-injective zero a b s t p q e = (omega arith, e)
hex_acc-injective (suc w) a b s t p q e =
    let (same, rest) = hex_acc-injective w (a / 16) (b / 16) _ _ p q e in
    let digits =
      hex_digit-injective (a % 16) (b % 16) (omega arith) (omega arith) (head-eq_of_cons-eq rest) in
    (omega arith, tail-eq_of_cons-eq rest)

hex_acc-append : (w n : ℕ) (s t : String) → hex_acc w n s ++ t ≡ hex_acc w n (s ++ t)
unfolding hex_acc
hex_acc-append zero n s t = refl
hex_acc-append (suc w) n s t =
    hex_acc-append w (n / 16) _ t ∙ ap (hex_acc w (n / 16)) (cons-append _ s t)

pub hex_pad-append : (w n : ℕ) (t : String) → hex_pad w n ++ t ≡ hex_acc w n t
unfolding hex_pad
hex_pad-append w n t = hex_acc-append w n "" t ∙ ap (hex_acc w n) (nil-append t)

-- Two padded numbers with text behind them agree only if all parts agree.
pub hex_pad-append-injective :
    (w a b : ℕ) (s t : String)
    → FitsHex w a
    → FitsHex w b
    → hex_pad w a ++ s ≡ hex_pad w b ++ t
    → (a ≡ b) × (s ≡ t)
hex_pad-append-injective w a b s t p q e =
    hex_acc-injective w a b s t p q (sym (hex_pad-append w a s) ∙ e ∙ hex_pad-append w b t)

dec_acc : ℕ → ℕ → String → String
dec_acc zero n acc = acc
dec_acc (suc w) n acc =
    let text = hex_digit (n % 10) ∷ acc in
    let rest = dec_acc w (n / 10) text in if ltb n 10 then text else rest

-- `n.to_string()` of a number below 2 ^ 64, which has at most twenty digits.
unfoldable pub to_string : ℕ → String
unfolding dec_acc hex_digit
to_string n = dec_acc 20 n ""

-- The digits of `str::parse`; `bound` is 2 ^ (the width), and a value past it is an error.
parse_digits : ℕ → ℕ → String → Option ℕ
parse_digits bound n [] = some n
parse_digits bound n (c ∷ s) =
    let d = code c - 48 in
    let rest = parse_digits bound (n * 10 + d) s in
    if leb 48 (code c) && leb (code c) 57 && ltb (n * 10 + d) bound then rest else none

-- `s.parse::<uN>().ok()`: one `+` may stand in front, and there is a digit.
unfoldable pub parse_uint : ℕ → String → Option ℕ
unfolding parse_digits
parse_uint bound [] = none
parse_uint bound (c ∷ []) = parse_digits bound 0 (c ∷ [])
parse_uint bound (c ∷ d ∷ s) =
    if eqb (code c) b'+' then parse_digits bound 0 (d ∷ s) else parse_digits bound 0 (c ∷ d ∷ s)

parse_digits-lt :
    (bound n m : ℕ) (s : String) → n < bound → parse_digits bound n s ≡ some m → m < bound
unfolding parse_digits
parse_digits-lt bound n m [] h e = ground arith
parse_digits-lt bound n m (c ∷ s) h e =
    ground (arith, parse_digits-lt bound (n * 10 + (code c - 48)) m s)

-- A parsed value fits the width.
pub parse_uint-lt : (bound n : ℕ) (s : String) → 0 < bound → parse_uint bound s ≡ some n → n < bound
unfolding parse_uint
parse_uint-lt bound n [] h e = ground arith
parse_uint-lt bound n (c ∷ []) h e = parse_digits-lt bound 0 n (c ∷ []) h e
parse_uint-lt bound n (c ∷ d ∷ s) h e =
    ground (arith, parse_digits-lt bound 0 n (d ∷ s), parse_digits-lt bound 0 n (c ∷ d ∷ s))

-- The value of a text of digits, behind the value `n` of what stands in front.
dec_value : ℕ → String → ℕ
dec_value n [] = n
dec_value n (c ∷ s) = dec_value (n * 10 + unhex (code c)) s

-- `n` has at most `w` decimal digits.
abbrev FitsDec : ℕ → ℕ → Type 0
FitsDec zero n = n ≡ 0
FitsDec (suc w) n = FitsDec w (n / 10)

dec_value-digit :
    (n d : ℕ) (s : String) → d < 16 → dec_value n (hex_digit d ∷ s) ≡ dec_value (n * 10 + d) s
unfolding dec_value
dec_value-digit n d s h = rw (unhex-hex_digit d h)

dec_value-dec_acc :
    (w n : ℕ) (acc : String) → FitsDec w n → dec_value 0 (dec_acc w n acc) ≡ dec_value n acc
unfolding dec_acc
dec_value-dec_acc zero n acc h = ap (λ k. dec_value k acc) (sym h)
dec_value-dec_acc (suc w) n acc h = elim (Bool-cases (ltb n 10)) [
  | inl small ↦
      rw small
        (dec_value-digit 0 (n % 10) acc (omega arith) ∙ ap (λ k. dec_value k acc) (ground arith))
  | inr large ↦ rw large (
      dec_value-dec_acc w (n / 10) _ h
      ∙ dec_value-digit (n / 10) (n % 10) acc (omega arith)
      ∙ ap (λ k. dec_value k acc) (omega arith))
]

-- Numbers of at most twenty digits that print alike are equal.
pub to_string-injective :
    (a b : ℕ)
    → a < 100000000000000000000
    → b < 100000000000000000000
    → to_string a ≡ to_string b
    → a ≡ b
unfolding to_string dec_value
to_string-injective a b p q e =
    sym (dec_value-dec_acc 20 a "" (omega arith))
    ∙ ap (dec_value 0) e
    ∙ dec_value-dec_acc 20 b "" (omega arith)

-- A text of `n` zeros in front of another.
zeros : ℕ → String → String
zeros zero s = s
zeros (suc n) s = hex_digit 0 ∷ zeros n s

-- `{:0w}` of a number below 2 ^ 64.
unfoldable pub dec_pad : ℕ → ℕ → String
unfolding zeros to_string
dec_pad w n = let digits = to_string n in zeros (w - len digits) digits

dec_value-zeros : (k : ℕ) (s : String) → dec_value 0 (zeros k s) ≡ dec_value 0 s
unfolding zeros dec_value
dec_value-zeros zero s = refl
dec_value-zeros (suc k) s = dec_value-digit 0 0 (zeros k s) (omega arith) ∙ dec_value-zeros k s

-- Padded numbers of at most twenty digits that print alike are equal.
pub dec_pad-injective :
    (w a b : ℕ)
    → a < 100000000000000000000
    → b < 100000000000000000000
    → dec_pad w a ≡ dec_pad w b
    → a ≡ b
unfolding dec_pad to_string dec_value
dec_pad-injective w a b p q e = sym (value w a p) ∙ ap (dec_value 0) e ∙ value w b q
  where
    value : (w a : ℕ) → a < 100000000000000000000 → dec_value 0 (dec_pad w a) ≡ a
    value w a p =
        dec_value-zeros (w - len (to_string a)) (to_string a)
        ∙ dec_value-dec_acc 20 a "" (omega arith)
