-- ===== src/Kms/Tests.antt =====
-- The key service at concrete keys and requests.
mod Codec
use openstack.Prelude.{
  get as map_get, ℕ, zero, suc, String, ◌++◌, ◌≡◌, refl, Bool, true, false, Option, none, some,
  List, [], ◌∷◌, All, ◌==◌, if◌then◌else◌,
}
use openstack.Prelude.{arith}
use openstack.Prelude.Text.{has_prefix, strip_prefix}
use openstack.Framework.Json.{bool, Json, num, str, object}
use openstack.Framework.Traits.{text, RequestContext, DispatchResponse}
use openstack.Framework.Service.{json_ok, str_param, json_error}
use openstack.State.Scoping.{new as key_new}
use openstack.State.Bundle.{AccountRegionBundle, get, lookup_key}
use openstack.Kms.Store.{KmsKey, KmsStore, resolve_key, resolve_key_mut, enabled}
use openstack.Kms.Handlers.{Bytes, Runtime, Fresh, done}
use openstack.Kms.Handlers.Ciphers.{
  encrypted, decrypted, if_enabled, envelope, signed_answer, verdict,
}
use openstack.Kms.Provider.{dispatch}
use openstack.Kms.Invariant.{IsSound, key_of, resolve_key-eq-resolve_key_mut}
use openstack.Kms.Invariant.Requests.{after, after-IsSound}
use openstack.Prelude.{◌*◌}
use openstack.Kms.Handlers.Keys.{rand_hex}
use openstack.Kms.Random.{size, option_map, size-rand_hex}
use openstack.Kms.Answers.{Has, Asks, disable_key-enable_key}
use openstack.Kms.Answers.Ciphers.{IsLawful, Signs, encrypt-decrypt, sign-verify}
use openstack.Kms.Tests.Codec.{runtime, runtime-IsLawful}

abbrev request : String → List (String × Json) → RequestContext
request operation fs = record {
  service = "kms";
  operation = operation;
  region = "us-east-1";
  account_id = "000000000000";
  request_body = object fs;
  raw_body = none;
  headers = [];
  query_params = [];
}

abbrev fresh : Fresh
fresh = record { now = 5; uuid = "k1"; seed = "s1" }

abbrev requests : List (Fresh × RequestContext)
requests =
    (fresh, request "CreateKey" [])
    ∷ (fresh, request "CreateAlias" (("AliasName", str "alias/a") ∷ ("TargetKeyId", str "k1") ∷ []))
    ∷ (fresh, request "ScheduleKeyDeletion" (("KeyId", str "alias/a") ∷ []))
    ∷ []

after-IsSound_example : All (λ e. IsSound e.1) (after runtime requests [])
after-IsSound_example = after-IsSound runtime requests

abbrev key : KmsKey
key = record {
  key_id = "k1";
  arn = "arn:aws:kms:us-east-1:000000000000:key/k1";
  description = "";
  key_state = enabled;
  created = 5;
  key_material = "00ff";
  aliases = "alias/a" ∷ [];
  tags = [];
}

abbrev store : KmsStore
store = record { keys = ("k1", key) ∷ []; alias_to_key = ("alias/a", "k1") ∷ [] }

resolve_key-eq-resolve_key_mut_example :
    resolve_key store "alias/a" ≡ key_of (resolve_key_mut store "alias/a")
resolve_key-eq-resolve_key_mut_example = resolve_key-eq-resolve_key_mut store "alias/a"

abbrev stores : AccountRegionBundle KmsStore
stores = (key_new "000000000000" "us-east-1", store) ∷ []

Has-alias : Has stores "000000000000" "us-east-1" "alias/a" key
unfolding get lookup_key key_new map_get resolve_key strip_prefix
Has-alias = record { store = store; own_store = refl; resolved = refl }

Has-id : Has stores "000000000000" "us-east-1" "k1" key
unfolding get lookup_key key_new map_get resolve_key
Has-id = record { store = store; own_store = refl; resolved = refl }

-- The member that names the key, by its alias.
abbrev by_alias : String × Json
by_alias = ("KeyId", str "alias/a")

abbrev plain : String × Json
plain = ("Plaintext", str "aGk=")

asks :
    (operation : String) (fs : List (String × Json))
    → Asks (request operation (by_alias ∷ fs)) operation "alias/a"
unfolding str_param
asks operation fs = record { asked = refl; named = refl }

disable_key-enable_key_example :
    ((dispatch runtime fresh
        (request "Encrypt" (by_alias ∷ plain ∷ []))
        (dispatch runtime fresh (request "DisableKey" (by_alias ∷ [])) stores).0).1
      ≡ json_error "DisabledException" "Key is disabled" 400)
    × ((dispatch runtime fresh
          (request "Encrypt" (by_alias ∷ plain ∷ []))
          (dispatch runtime fresh
            (request "EnableKey" (by_alias ∷ []))
            (dispatch runtime fresh (request "DisableKey" (by_alias ∷ [])) stores).0).0).1
        ≡ encrypted runtime "aGk=" (record key { key_state = enabled }))
unfolding str_param
disable_key-enable_key_example =
    disable_key-enable_key runtime fresh (request "DisableKey" (by_alias ∷ []))
      (request "EnableKey" (by_alias ∷ [])) (request "Encrypt" (by_alias ∷ plain ∷ [])) stores
      "alias/a" "aGk=" key (refl, refl) (refl, refl) Has-alias (asks "DisableKey" [])
      (asks "EnableKey" []) (asks "Encrypt" (plain ∷ [])) refl

abbrev to_decrypt : RequestContext
to_decrypt =
    request "Decrypt"
      (("CiphertextBlob", str (runtime.encode_base64 (runtime.as_bytes "k1:aGk="))) ∷ [])

encrypt-decrypt_example :
    ((dispatch runtime fresh (request "Encrypt" (by_alias ∷ plain ∷ [])) stores).1
      ≡ json_ok (
          object (
            ("CiphertextBlob", str (runtime.encode_base64 (runtime.as_bytes "k1:aGk=")))
            ∷ ("KeyId", str key.arn)
            ∷ ("EncryptionAlgorithm", str "SYMMETRIC_DEFAULT")
            ∷ [])))
    × ((dispatch runtime fresh to_decrypt stores).1
        ≡ json_ok (
            object (
              ("Plaintext", str "aGk=")
              ∷ ("KeyId", str key.arn)
              ∷ ("EncryptionAlgorithm", str "SYMMETRIC_DEFAULT")
              ∷ [])))
unfolding str_param
encrypt-decrypt_example =
    encrypt-decrypt runtime fresh (request "Encrypt" (by_alias ∷ plain ∷ [])) to_decrypt stores
      stores "alias/a" "aGk=" key key runtime-IsLawful (omega arith, (omega arith, tt)) Has-alias
      refl (asks "Encrypt" (plain ∷ [])) refl Has-id refl refl

abbrev message : String
message = "0hello"

abbrev signing : List (String × Json)
signing = ("Message", str message) ∷ ("SigningAlgorithm", str "HMAC_SHA_256") ∷ []

abbrev verifying : List (String × Json)
verifying =
    ("Message", str message)
    ∷ ("SigningAlgorithm", str "HMAC_SHA_256")
    ∷ ("Signature", str "0tag")
    ∷ []

signs : Signs (request "Sign" (by_alias ∷ signing)) "Sign" "alias/a" message
unfolding str_param
signs = record {
  asks = asks "Sign" signing;
  id_full = refl;
  message_there = refl;
  message_full = refl;
  algorithm_there = refl;
}

verifies : Signs (request "Verify" (by_alias ∷ verifying)) "Verify" "alias/a" message
unfolding str_param
verifies = record {
  asks = asks "Verify" verifying;
  id_full = refl;
  message_there = refl;
  message_full = refl;
  algorithm_there = refl;
}

sign-verify_example :
    ((dispatch runtime fresh (request "Sign" (by_alias ∷ signing)) stores).1
      ≡ json_ok (
          object (
            ("Signature", str (runtime.encode_base64 (text "tag")))
            ∷ ("SigningAlgorithm", str "HMAC_SHA_256")
            ∷ ("KeyId", str key.arn)
            ∷ [])))
    × ((dispatch runtime fresh (request "Verify" (by_alias ∷ verifying)) stores).1
        ≡ json_ok (
            object (
              ("KeyId", str key.arn)
              ∷ ("SignatureValid", bool true)
              ∷ ("SigningAlgorithm", str "HMAC_SHA_256")
              ∷ [])))
unfolding str_param runtime
sign-verify_example =
    sign-verify runtime fresh (request "Sign" (by_alias ∷ signing))
      (request "Verify" (by_alias ∷ verifying)) stores stores "alias/a" "alias/a" message key key
      (text "00ff") (text "hello") (λ message. text "tag") runtime-IsLawful Has-alias Has-alias refl
      refl refl refl refl refl signs verifies refl refl

size-rand_hex_example : option_map size (rand_hex (λ s. 7) 20 "seed") ≡ some (20 * 2)
size-rand_hex_example = size-rand_hex (λ s. 7) 20 "seed" (omega arith)
