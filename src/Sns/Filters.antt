-- ===== src/Sns/Filters.antt =====
-- What a filter policy lets pass (crates/services/sns/src/store.rs).
use openstack.Prelude.{
  ℕ, zero, suc, String, ◌≡◌, ◌↔◌, refl, ap, inl, inr, true, some, List, [], ◌∷◌, Dict, get, any,
  get_elem?, unwrap_or, Option-cases, Bool-cases, eq_iff, eq_refl,
}
use openstack.Framework.Json.{Json, str, null, bool, num, other_num, arr, obj}
use openstack.Sns.Store.{FilterPolicy, MessageAttribute, allows, matches}

-- The text stands among the allowed values.
abbrev pub IsAllowed : String → List Json → Type 0
IsAllowed value allowed = (i : ℕ) × (get_elem? allowed i ≡ some (str value))

-- The message has every attribute of the policy, with a value that the policy allows; an attribute
-- without a text counts as the empty one.
abbrev pub Passes : FilterPolicy → Dict MessageAttribute → Type 0
Passes [] attributes = Unit
Passes ((name, allowed) ∷ rest) attributes =
    ((a : MessageAttribute) × (get name attributes ≡ some a)
      × IsAllowed (unwrap_or a.string_value "") allowed)
    × Passes rest attributes

allows-eq : (value : String) (v : Json) → allows value v ≡ true → v ≡ str value
unfolding allows
allows-eq value (str s) h = ap str ((eq_iff s value).0 h)
allows-eq value null h = absurd (cc h)
allows-eq value (bool b) h = absurd (cc h)
allows-eq value (num n) h = absurd (cc h)
allows-eq value (other_num t) h = absurd (cc h)
allows-eq value (arr js) h = absurd (cc h)
allows-eq value (obj fs) h = absurd (cc h)

allows-str : (value : String) → allows value (str value) ≡ true
unfolding allows
allows-str value = eq_refl value

any-IsAllowed :
    (value : String) (allowed : List Json)
    → any (allows value) allowed ≡ true
    → IsAllowed value allowed
any-IsAllowed value [] h = absurd (cc h)
any-IsAllowed value (v ∷ vs) h = elim (Bool-cases (allows value v)) [
  | inl here ↦ (0, ap (λ x. some x) (allows-eq value v here))
  | inr other ↦ let (i, e) = any-IsAllowed value vs (rw other at h) in (suc i, e)
]

IsAllowed-any :
    (value : String) (allowed : List Json) (i : ℕ)
    → get_elem? allowed i ≡ some (str value)
    → any (allows value) allowed ≡ true
IsAllowed-any value [] i e = absurd (cc e)
IsAllowed-any value (v ∷ vs) zero e =
    let same : v ≡ str value = cc e in rw (same, allows-str value) refl
IsAllowed-any value (v ∷ vs) (suc i) e = elim (Bool-cases (allows value v)) [
  | inl here ↦ rw here refl
  | inr other ↦ rw other (IsAllowed-any value vs i e)
]

matches-Passes :
    (policy : FilterPolicy) (attributes : Dict MessageAttribute)
    → matches policy attributes ≡ true
    → Passes policy attributes
unfolding matches
matches-Passes [] attributes h = tt
matches-Passes ((name, allowed) ∷ rest) attributes h = elim (Option-cases (get name attributes)) [
  | inl missing ↦ absurd (cc (rw (missing, matches) at h))
  | inr (a, found) ↦ elim (Bool-cases (any (allows (unwrap_or a.string_value "")) allowed)) [
    | inl one ↦ (
      (a, found, any-IsAllowed (unwrap_or a.string_value "") allowed one),
      matches-Passes rest attributes (rw (found, one, matches) at h),
    )
    | inr other ↦ absurd (cc (rw (found, other, matches) at h))
  ]
]

Passes-matches :
    (policy : FilterPolicy) (attributes : Dict MessageAttribute)
    → Passes policy attributes
    → matches policy attributes ≡ true
unfolding matches
Passes-matches [] attributes h = refl
Passes-matches ((name, allowed) ∷ rest) attributes h =
    let a = h.0.0 in
    let one = IsAllowed-any (unwrap_or a.string_value "") allowed h.0.2.0 h.0.2.1 in
    rw (h.0.1, one, matches) (Passes-matches rest attributes h.1)

-- A message matches a filter policy just if it has every attribute that the policy names, with a value
-- that is one of the texts that the policy allows for it.
pub matches_iff :
    (policy : FilterPolicy) (attributes : Dict MessageAttribute)
    → (matches policy attributes ≡ true) ↔ Passes policy attributes
matches_iff policy attributes = (matches-Passes policy attributes, Passes-matches policy attributes)
