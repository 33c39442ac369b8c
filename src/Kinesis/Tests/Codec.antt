-- ===== src/Kinesis/Tests/Codec.antt =====
-- A concrete runtime of the stream service, whose tokens can be read back.
use Prim.Native.Nat.{ℕ, zero, suc}
use Prim.Native.Char.{char, code}
use Prim.Native.String.{String, [], ◌∷◌, ◌++◌}
use text.Mathlib.TextLemmas.{nil-append, cons-append}
use openstack.Prelude.{eqb, if◌then◌else◌, ◌≡◌, refl, Option, none, some}
use openstack.Kinesis.Store.{ShardIteratorState}
use openstack.Kinesis.Handlers.{Runtime, IsLawful, done}

-- A printing of the states of iterators that can be read back: numbers as marks, and in front of the
-- two names the length of the first.
marks : ℕ → String → String
marks zero s = char 48 tt ∷ s
marks (suc n) s = char 49 tt ∷ marks n s

read_marks : String → Option (ℕ × String)
read_marks [] = none
read_marks (c ∷ s) =
    let rest : Option (ℕ × String) = elim (read_marks s) [
      | none ↦ none
      | some (n, t) ↦ some (suc n, t)
    ] in
    if eqb (code c) 49 then rest else some (0, s)

read_marks-marks : (n : ℕ) (s : String) → read_marks (marks n s) ≡ some (n, s)
unfolding read_marks marks
read_marks-marks zero s = refl
read_marks-marks (suc n) s = rw (read_marks-marks n s) refl

split_text : ℕ → String → String × String
split_text zero s = ("", s)
split_text (suc n) [] = ("", "")
split_text (suc n) (c ∷ s) = let (a, b) = split_text n s in (c ∷ a, b)

size : String → ℕ
size [] = 0
size (c ∷ s) = suc (size s)

split_text-append : (a b : String) → split_text (size a) (a ++ b) ≡ (a, b)
unfolding split_text size
split_text-append [] b = rw (nil-append b) refl
split_text-append (c ∷ a) b = rw (cons-append c a b, split_text-append a b) refl

print : ShardIteratorState → String
print st = marks st.next_index (marks (size st.stream_name) (st.stream_name ++ st.shard_id))

parse_names : ℕ → Option (ℕ × String) → Option ShardIteratorState
parse_names n none = none
parse_names n (some (k, s)) =
    let (a, b) = split_text k s in some record { stream_name = a; shard_id = b; next_index = n }

parse_state : Option (ℕ × String) → Option ShardIteratorState
parse_state none = none
parse_state (some (n, s)) = parse_names n (read_marks s)

unfoldable pub runtime : Runtime
unfolding print parse_state marks size parse_names read_marks split_text
runtime = record {
  encode_base64 = λ s. s;
  decode_base64 = λ s. some s;
  print_state = print;
  parse_state = λ s. parse_state (read_marks s);
  hash_string = λ s. 0;
  panicked = done;
}

pub runtime-IsLawful : IsLawful runtime
unfolding runtime print parse_state parse_names
runtime-IsLawful = record {
  decode-encode = λ s. refl;
  parse-print = λ st.
      rw
        (
          read_marks-marks st.next_index
              (marks (size st.stream_name) (st.stream_name ++ st.shard_id)),
          read_marks-marks (size st.stream_name) (st.stream_name ++ st.shard_id),
          split_text-append st.stream_name st.shard_id,
        )
        refl;
}
