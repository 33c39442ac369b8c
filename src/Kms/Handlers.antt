-- ===== src/Kms/Handlers.antt =====
-- crates/services/kms/src/provider.rs: what the arms of `dispatch` share. The children hold the arms:
-- Keys the keys and their states, Aliases the aliases and tags, Ciphers the use of a key.
pub mod Keys
pub mod Aliases
pub mod Ciphers
use openstack.Prelude.{
  ℕ, String, ◌++◌, Bool, false, Option, none, some, List, [], ◌∷◌, insert, if◌then◌else◌,
}
use openstack.Prelude.Text.{has_prefix}
use openstack.Framework.Json.{Json, str, num, bool, object}
use openstack.Framework.Traits.{RawBody, RequestContext, DispatchResponse}
use openstack.Framework.Service.{json_ok, json_error, timestamp, Operation, reads, changes}
use openstack.Kms.Store.{
  KeyState, KmsKey, KmsStore, to_text, is_enabled, resolve_key, resolve_key_mut,
}

-- A byte string in one form: text where it is UTF-8, and its bytes where it is not.
abbrev pub Bytes : Type 0
Bytes = RawBody

-- What the provider takes from other crates and the standard library: base64, UTF-8, hexadecimal text,
-- HMAC-SHA256, the hash of `DefaultHasher`, and the arithmetic of `chrono`, which gives the timestamp of
-- a time and an `i64` of days, or panics. `new_from_slice` gives the tag of a message under a key, and
-- `verify_slice` tests a tag. `panicked` stands for a request whose handler panics: in a
-- release build, which aborts on a panic, it is no answer but the end of the process.
pub record Runtime : Type 0 where
  pub encode_base64 : Bytes → String
  pub decode_base64 : String → Option Bytes
  pub as_bytes : String → Bytes
  pub from_utf8_lossy : Bytes → String
  pub decode_hex : String → Option Bytes
  pub new_from_slice : Bytes → Option (Bytes → Bytes)
  pub verify_slice : Bytes → Bytes → Bytes → Bool
  pub hash_string : String → ℕ
  pub days_later : ℕ → ℕ → Option Json
  pub panicked : DispatchResponse

-- The time of a request, and the texts of the random ids that it draws.
pub record Fresh : Type 0 where
  pub now : ℕ
  pub uuid : String
  pub seed : String

abbrev pub done : DispatchResponse
done = json_ok (object [])

abbrev pub invalid_key : String → DispatchResponse
invalid_key id = json_error "NotFoundException" ("Invalid keyId " ++ id) 404

unfoldable pub key_metadata : KmsKey → Json
unfolding to_text
key_metadata k = object (
    ("KeyId", str k.key_id)
    ∷ ("Arn", str k.arn)
    ∷ ("Description", str k.description)
    ∷ ("KeyState", str (to_text k.key_state))
    ∷ ("CreationDate", num (timestamp k.created))
    ∷ ("Enabled", bool (is_enabled k.key_state))
    ∷ ("KeyUsage", str "ENCRYPT_DECRYPT")
    ∷ ("KeySpec", str "SYMMETRIC_DEFAULT")
    ∷ ("Origin", str "AWS_KMS")
    ∷ ("MultiRegion", bool false)
    ∷ [])

-- An answer from the key that an id resolves to.
unfoldable pub of_key :
    String → DispatchResponse → (KmsKey → DispatchResponse) → KmsStore → DispatchResponse
of_key id absent f store = elim (resolve_key store id) [ none ↦ absent | some k ↦ f k ]

abbrev pub reads_key : String → DispatchResponse → (KmsKey → DispatchResponse) → Operation KmsStore
reads_key id absent f = reads absent (of_key id absent f)

-- A change of the key that `resolve_key_mut` finds, in its place.
unfoldable pub with_key :
    String → (KmsKey → KmsKey × DispatchResponse) → KmsStore → KmsStore × DispatchResponse
with_key id f store = elim (resolve_key_mut store id) [
  | none ↦ (store, invalid_key id)
  | some (place, k) ↦ let (k', r) = f k in (record store { keys = insert place k' store.keys }, r)
]
