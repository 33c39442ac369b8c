-- ===== src/Kms/Tests/Codec.antt =====
-- A concrete runtime of the key service, whose codings can be read back.
use Prim.Native.Nat.{ℕ, zero, suc, ◌+◌}
use Prim.Native.Char.{char, code}
use Prim.Native.String.{String, [], ◌∷◌}
use mathlib.Core.List.{List, [] as nil, ◌∷◌ as ◌∷∷◌}
use openstack.Prelude.{
  unwrap_or, eqb, if◌then◌else◌, ◌≡◌, ◌==◌, refl, Bool, false, Option, none, some, arith, ap, ◌∙◌,
  sym,
}
use openstack.Framework.Json.{num}
use openstack.Framework.Traits.{RawBody, text, binary}
use openstack.Kms.Handlers.{Runtime, done}
use openstack.Kms.Answers.Ciphers.{IsLawful}

-- A number as marks, in front of the rest.
marks : ℕ → String → String
marks zero s = char 48 tt ∷ s
marks (suc n) s = char 49 tt ∷ marks n s

print_all : List ℕ → String
unfolding marks
print_all nil = ""
print_all (n ∷∷ ns) = marks n (print_all ns)

read_all : ℕ → String → List ℕ
read_all n [] = nil
read_all n (c ∷ s) =
    let more = read_all (suc n) s in
    let next = read_all 0 s in if eqb (code c) 49 then more else n ∷∷ next

read_all-marks : (n k : ℕ) (s : String) → read_all n (marks k s) ≡ (n + k) ∷∷ read_all 0 s
unfolding read_all marks
read_all-marks n zero s = ap (λ m. m ∷∷ read_all 0 s) (omega arith)
read_all-marks n (suc k) s = read_all-marks (suc n) k s ∙ ap (λ m. m ∷∷ read_all 0 s) (omega arith)

read_all-print_all : (ns : List ℕ) → read_all 0 (print_all ns) ≡ ns
unfolding print_all read_all
read_all-print_all nil = refl
read_all-print_all (n ∷∷ ns) =
    read_all-marks 0 n (print_all ns)
    ∙ ap (λ m. m ∷∷ read_all 0 (print_all ns)) (omega arith)
    ∙ ap (λ l. n ∷∷ l) (read_all-print_all ns)

encode : RawBody → String
encode (text s) = char 48 tt ∷ s
encode (binary b) = char 49 tt ∷ print_all b

decode : String → Option RawBody
decode [] = none
decode (c ∷ s) = if eqb (code c) 48 then some (text s) else some (binary (read_all 0 s))

decode-encode : (b : RawBody) → decode (encode b) ≡ some b
unfolding decode encode
decode-encode (text s) = refl
decode-encode (binary b) = ap (λ l. some (binary l)) (read_all-print_all b)

lossy : RawBody → String
lossy (text s) = s
lossy (binary b) = "?"

is_tag : RawBody → Bool
is_tag (text s) = s == "tag"
is_tag (binary b) = false

unfoldable pub runtime : Runtime
unfolding encode decode lossy is_tag marks print_all read_all
runtime = record {
  encode_base64 = encode;
  decode_base64 = decode;
  as_bytes = λ s. text s;
  from_utf8_lossy = lossy;
  decode_hex = λ s. some (text s);
  new_from_slice = λ key. some (λ message. text "tag");
  verify_slice = λ key message tag. is_tag tag;
  hash_string = λ s. 0;
  days_later = λ now days. some (num now);
  panicked = done;
}

some-injective : {A : Type 0} {a b : A} → some a ≡ some b → a ≡ b
some-injective {a = a} e = ap (λ o. unwrap_or o a) e

pub runtime-IsLawful : IsLawful runtime
unfolding runtime lossy is_tag
runtime-IsLawful = record {
  decode-text = λ s. decode-encode (text s);
  decode-tag = λ key message mac made. decode-encode (mac message);
  lossy-bytes = λ s. refl;
  accepts_own = λ key message mac made.
      let same : (λ (m : RawBody). text "tag") ≡ mac = some-injective made in
      ap (λ (f : RawBody → RawBody). is_tag (f message)) (sym same);
}
