-- ===== src/Sqs/Xml/Escape.antt =====
-- The two functions of the queue service's provider that escape text.
use Prim.Native.Char.{Char, code}
use Prim.Native.String.{String, [], ◌∷◌, ◌++◌}
use text.Mathlib.TextLemmas.{cons-append, nil-append}
use openstack.Prelude.{◌⊎◌, ℕ, ◌≡◌, refl, sym, ap, false, inl, inr, Bool-cases, arith, eqb}
use openstack.Prelude.Text.{IsFree}
use openstack.Sqs.Xml.{any_special, escape_char, escape_chars, escape_xml, push_xml_escaped}

escape_chars-plain : (s : String) → any_special s ≡ false → escape_chars s ≡ s
unfolding any_special escape_chars
escape_chars-plain [] h = refl
escape_chars-plain (c ∷ s) h = ground (arith, escape_chars-plain s)

-- The shortcut for plain text changes nothing, and both ways to escape agree.
escape_xml-eq : (s : String) → escape_xml s ≡ escape_chars s
unfolding escape_xml escape_chars
escape_xml-eq s = elim (Bool-cases (any_special s)) [
  | inl special ↦ rw special
  | inr plain ↦ rw plain (sym (escape_chars-plain s plain))
]

push_xml_escaped-eq : (dst s : String) → push_xml_escaped dst s ≡ dst ++ escape_chars s
unfolding push_xml_escaped escape_chars
push_xml_escaped-eq dst s = elim (Bool-cases (any_special s)) [
  | inl special ↦ rw special
  | inr plain ↦ rw plain (ap (λ t. dst ++ t) (sym (escape_chars-plain s plain)))
]

-- The characters that open and close tags and quoted values.
abbrev pub IsMarkup : ℕ → Type 0
IsMarkup t = (t ≡ b'<') ⊎ (t ≡ b'>') ⊎ (t ≡ b'"')

IsFree-append : (t : ℕ) (s r : String) → IsFree t s → IsFree t r → IsFree t (s ++ r)
IsFree-append t [] r h k = rw nil-append k
IsFree-append t (c ∷ s) r (h, hs) k = rw cons-append (h, IsFree-append t s r hs k)

-- An entity has no markup character.
abbrev Entity : String → Type 0
Entity e = (t : ℕ) → IsMarkup t → IsFree t e

entities : Entity "&amp;" × Entity "&lt;" × Entity "&gt;" × Entity "&quot;"
entities = (λ t h. omega arith, λ t h. omega arith, λ t h. omega arith, λ t h. omega arith)

IsFree-escape_char :
    (t : ℕ) (c : Char) (rest : String) → IsMarkup t → IsFree t rest → IsFree t (escape_char c rest)
IsFree-escape_char t c rest h free = elim (Bool-cases (eqb (code c) b'&')) [
  | inl a ↦ rw a (IsFree-append t "&amp;" rest (entities.0 t h) free)
  | inr a ↦ elim (Bool-cases (eqb (code c) b'<')) [
    | inl l ↦ rw (a, l) (IsFree-append t "&lt;" rest (entities.1 t h) free)
    | inr l ↦ elim (Bool-cases (eqb (code c) b'>')) [
      | inl g ↦ rw (a, l, g) (IsFree-append t "&gt;" rest (entities.2 t h) free)
      | inr g ↦ elim (Bool-cases (eqb (code c) b'"')) [
        | inl q ↦ rw (a, l, g, q) (IsFree-append t "&quot;" rest (entities.3 t h) free)
        | inr q ↦ rw (a, l, g, q) (ground arith, free)
      ]
    ]
  ]
]

escape_chars-IsFree : (t : ℕ) (s : String) → IsMarkup t → IsFree t (escape_chars s)
unfolding escape_chars
escape_chars-IsFree t [] h = tt
escape_chars-IsFree t (c ∷ s) h =
    IsFree-escape_char t c (escape_chars s) h (escape_chars-IsFree t s h)

-- Both ways in which the provider escapes a text give the same, and what they give holds no `<`, no
-- `>` and no `"`, whatever the text.
pub escape_xml-IsFree :
    (s : String)
    → ((dst : String) → push_xml_escaped dst s ≡ dst ++ escape_xml s)
      × ((t : ℕ) → IsMarkup t → IsFree t (escape_xml s))
escape_xml-IsFree s = (
  λ dst. rw escape_xml-eq (push_xml_escaped-eq dst s),
  λ t h. rw escape_xml-eq (escape_chars-IsFree t s h),
)
