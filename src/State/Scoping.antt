-- ===== src/State/Scoping.antt =====
-- crates/state/src/scoping.rs: the key of an account's store in a region.
use Prim.Native.Char.{code}
use Prim.Native.String.{[], ◌∷◌}
use text.Mathlib.TextLemmas.{nil-append, cons-append}
use openstack.Prelude.{
  String, ◌++◌, ◌≡◌, refl, sym, ◌∙◌, ap, Option, none, some, arith, eqb, if◌then◌else◌,
}
use openstack.Prelude.Text.{IsFree}

-- The separator, U+0000.
abbrev pub separator : String
separator = Prim.Native.Char.nul ∷ ""

-- `AccountRegionKey::new`: the account, the separator and the region as one text.
unfoldable pub new : String → String → String
new account_id region = account_id ++ (separator ++ region)

-- The part before the first separator, and the part behind it.
unfoldable pub split_once : String → Option (String × String)
split_once [] = none
split_once (c ∷ s) =
    if eqb (code c) 0
    then some ("", s)
    else elim (split_once s) [ none ↦ none | some (a, r) ↦ some (c ∷ a, r) ]

-- `AccountRegionKey::account_id`.
unfoldable pub account_id : String → String
unfolding split_once
account_id key = elim (split_once key) [ none ↦ key | some (a, r) ↦ a ]

-- `AccountRegionKey::region`.
unfoldable pub region : String → String
unfolding split_once
region key = elim (split_once key) [ none ↦ "" | some (a, r) ↦ r ]

pub split_once-new : (a r : String) → IsFree 0 a → split_once (new a r) ≡ some (a, r)
unfolding split_once new
split_once-new [] r h = rw (nil-append (separator ++ r), cons-append, nil-append r) refl
split_once-new (c ∷ a) r (p, h) =
    rw (cons-append c a (separator ++ r)) (ground (arith, split_once-new a r h))

-- The key of an account without the separator gives back the account and the region.
pub key_parts : (a r : String) → IsFree 0 a → (account_id (new a r) ≡ a) × (region (new a r) ≡ r)
unfolding account_id region
key_parts a r h = (rw (split_once-new a r h, account_id), rw (split_once-new a r h, region))

-- Two tenants have one key only if they are the same account and region, where neither account
-- contains the separator.
pub new-injective :
    (a b r s : String) → IsFree 0 a → IsFree 0 b → new a r ≡ new b s → (a ≡ b) × (r ≡ s)
new-injective a b r s p q e = (
  sym (key_parts a r p).0 ∙ ap account_id e ∙ (key_parts b s q).0,
  sym (key_parts a r p).1 ∙ ap region e ∙ (key_parts b s q).1,
)
