-- ===== src/Kms/Answers/Ciphers.antt =====
-- Decryption of what was encrypted, and verification of what was signed
-- (crates/services/kms/src/provider.rs).
use openstack.Prelude.{
  String, ◌++◌, ◌≡◌, refl, ap, ◌∙◌, true, false, some, [], ◌∷◌, ◌==◌, if◌then◌else◌,
}
use openstack.Prelude.Text.{IsFree, split_first, split_first-append}
use openstack.Framework.Json.{object, str, bool}
use openstack.Framework.Traits.{RequestContext, DispatchResponse}
use openstack.Framework.Service.{Operation, str_param, json_ok, json_error, route}
use openstack.Framework.Service.Laws.{required-some}
use openstack.State.Bundle.{AccountRegionBundle}
use openstack.Kms.Store.{
  KmsKey, KmsStore, KeyState, enabled, disabled, pending_deletion, is_enabled,
}
use openstack.Kms.Handlers.{Bytes, Runtime, Fresh, reads_key, invalid_key}
use openstack.Kms.Handlers.Ciphers.{
  if_enabled, envelope, encrypted, decrypt, decrypted, sign, sign_with, signed_answer, verify,
  verify_with, verdict, not_enabled, key_not_found, filled,
}
use openstack.Kms.Provider.{arms, arm, dispatch}
use openstack.Kms.Answers.{Has, Asks, reads_key-answer, arm-encrypt}

-- What the other crates document, of the bytes that the provider gives them: base64 decodes what it
-- encodes of a text and of a tag, UTF-8 what it encodes, and HMAC accepts the tag that it makes.
pub record IsLawful (r : Runtime) : Type 0 where
  pub decode-text :
      (s : String) → r.decode_base64 (r.encode_base64 (r.as_bytes s)) ≡ some (r.as_bytes s)
  pub decode-tag :
      (key message : Bytes) (mac : Bytes → Bytes)
      → r.new_from_slice key ≡ some mac
      → r.decode_base64 (r.encode_base64 (mac message)) ≡ some (mac message)
  pub lossy-bytes : (s : String) → r.from_utf8_lossy (r.as_bytes s) ≡ s
  pub accepts_own :
      (key message : Bytes) (mac : Bytes → Bytes)
      → r.new_from_slice key ≡ some mac
      → r.verify_slice key message (mac message) ≡ true

-- An enabled key is used.
if_enabled-on :
    (message : String) (f : KmsKey → DispatchResponse) (k : KmsKey)
    → k.key_state ≡ enabled
    → if_enabled message f k ≡ f k
unfolding if_enabled
if_enabled-on message f k on =
    ap (λ state. if is_enabled state then f k else json_error "DisabledException" message 400) on

-- What becomes of a key in each of its states.
if_enabled-states :
    (message : String) (f : KmsKey → DispatchResponse) (k : KmsKey) (state : KeyState)
    → k.key_state ≡ state
    → if_enabled message f k ≡ elim state [
      | enabled ↦ f k
      | disabled ↦ json_error "DisabledException" message 400
      | pending_deletion ↦ json_error "DisabledException" message 400
    ]
unfolding if_enabled
if_enabled-states message f k enabled e = rw e refl
if_enabled-states message f k disabled e = rw e refl
if_enabled-states message f k pending_deletion e = rw e refl

-- The parts of an envelope.
open_envelope :
    (r : Runtime) (k : KmsKey) (plaintext : String)
    → IsLawful r
    → IsFree b':' k.key_id
    → split_first b':' (r.from_utf8_lossy (r.as_bytes (k.key_id ++ (":" ++ plaintext))))
      ≡ (k.key_id, plaintext)
open_envelope r k plaintext law free =
    ap (split_first b':') (law.lossy-bytes _) ∙ split_first-append k.key_id plaintext free

arm-decrypt_taken :
    (r : Runtime) (fresh : Fresh) (ctx : RequestContext)
    → ctx.operation ≡ "Decrypt"
    → arm r fresh ctx ≡ decrypt r ctx
unfolding arm arms route
arm-decrypt_taken r fresh ctx op = rw (op, arm, route) refl

arm-decrypt :
    (r : Runtime) (fresh : Fresh) (ctx : RequestContext) (k : KmsKey) (plaintext : String)
    → IsLawful r
    → IsFree b':' k.key_id
    → ctx.operation ≡ "Decrypt"
    → str_param ctx "CiphertextBlob" ≡ some (envelope r k plaintext)
    → arm r fresh ctx
      ≡ reads_key k.key_id
          (invalid_key k.key_id)
          (if_enabled "Key is disabled" (decrypted plaintext))
unfolding decrypt envelope
arm-decrypt r fresh ctx k plaintext law free op c =
    arm-decrypt_taken r fresh ctx op
    ∙ (required-some ctx "CiphertextBlob" (envelope r k plaintext) _ c
        ∙ rw
            (law.decode-text (k.key_id ++ (":" ++ plaintext)), open_envelope r k plaintext law free)
            refl)

-- Where base64 and UTF-8 decode what they encode: a plaintext encrypted under an enabled key, whose id
-- has no colon, is answered with base64 of the id, a colon and the plaintext and with the ARN of the key,
-- and that ciphertext, whoever sends it to stores in which the id still stands for a key, is answered
-- with the plaintext and the ARN if that key is enabled then, and with a DisabledException if it is
-- disabled or pending deletion.
pub encrypt-decrypt :
    (r : Runtime) (fresh : Fresh) (ctx ctx' : RequestContext)
    (stores stores' : AccountRegionBundle KmsStore) (id plaintext : String) (k k' : KmsKey)
    → IsLawful r
    → IsFree b':' k.key_id
    → Has stores ctx.account_id ctx.region id k
    → k.key_state ≡ enabled
    → Asks ctx "Encrypt" id
    → str_param ctx "Plaintext" ≡ some plaintext
    → Has stores' ctx'.account_id ctx'.region k.key_id k'
    → ctx'.operation ≡ "Decrypt"
    → str_param ctx' "CiphertextBlob"
      ≡ some (r.encode_base64 (r.as_bytes (k.key_id ++ (":" ++ plaintext))))
    → ((dispatch r fresh ctx stores).1
        ≡ json_ok (
            object (
              (
                "CiphertextBlob",
                str (r.encode_base64 (r.as_bytes (k.key_id ++ (":" ++ plaintext)))),
              )
              ∷ ("KeyId", str k.arn)
              ∷ ("EncryptionAlgorithm", str "SYMMETRIC_DEFAULT")
              ∷ [])))
      × ((dispatch r fresh ctx' stores').1 ≡ elim k'.key_state [
        | enabled ↦ json_ok (
            object (
              ("Plaintext", str plaintext)
              ∷ ("KeyId", str k'.arn)
              ∷ ("EncryptionAlgorithm", str "SYMMETRIC_DEFAULT")
              ∷ []))
        | disabled ↦ json_error "DisabledException" "Key is disabled" 400
        | pending_deletion ↦ json_error "DisabledException" "Key is disabled" 400
      ])
unfolding envelope encrypted decrypted
encrypt-decrypt r fresh ctx ctx' stores stores' id plaintext k k' law free h on asks p h' op c = (
  reads_key-answer r fresh ctx stores id k _ _ h (arm-encrypt r fresh ctx id plaintext asks p)
      ∙ if_enabled-on "Key is disabled" _ k on,
  reads_key-answer r fresh ctx' stores' k.key_id k' _ _ h'
        (arm-decrypt r fresh ctx' k plaintext law free op c)
      ∙ if_enabled-states "Key is disabled" (decrypted plaintext) k' k'.key_state refl,
)

-- A member that is there and is not empty.
filled-some :
    (ctx : RequestContext) (key v : String) (f : String → Operation KmsStore)
    → str_param ctx key ≡ some v
    → (v == "") ≡ false
    → filled ctx key f ≡ f v
filled-some ctx key v f found full = required-some ctx key v _ found ∙ rw full refl

-- A request to sign or verify a message with the algorithm that there is.
pub record Signs (ctx : RequestContext) (operation id message : String) : Type 0 where
  pub asks : Asks ctx operation id
  pub id_full : (id == "") ≡ false
  pub message_there : str_param ctx "Message" ≡ some message
  pub message_full : (message == "") ≡ false
  pub algorithm_there : str_param ctx "SigningAlgorithm" ≡ some "HMAC_SHA_256"

arm-sign_taken :
    (r : Runtime) (fresh : Fresh) (ctx : RequestContext)
    → ctx.operation ≡ "Sign"
    → arm r fresh ctx ≡ sign r ctx
unfolding arm arms route
arm-sign_taken r fresh ctx op = rw (op, arm, route) refl

arm-sign :
    (r : Runtime) (fresh : Fresh) (ctx : RequestContext) (id message : String)
    → Signs ctx "Sign" id message
    → arm r fresh ctx
      ≡ reads_key id (key_not_found id) (if_enabled not_enabled (sign_with r message))
unfolding sign
arm-sign r fresh ctx id message h =
    arm-sign_taken r fresh ctx h.asks.asked
    ∙ (filled-some ctx "KeyId" id _ h.asks.named h.id_full
        ∙ filled-some ctx "Message" message _ h.message_there h.message_full
        ∙ required-some ctx "SigningAlgorithm" "HMAC_SHA_256" _ h.algorithm_there)

arm-verify_taken :
    (r : Runtime) (fresh : Fresh) (ctx : RequestContext)
    → ctx.operation ≡ "Verify"
    → arm r fresh ctx ≡ verify r ctx
unfolding arm arms route
arm-verify_taken r fresh ctx op = rw (op, arm, route) refl

arm-verify :
    (r : Runtime) (fresh : Fresh) (ctx : RequestContext) (id message signature : String)
    → Signs ctx "Verify" id message
    → str_param ctx "Signature" ≡ some signature
    → (signature == "") ≡ false
    → arm r fresh ctx
      ≡ reads_key id (key_not_found id) (if_enabled not_enabled (verify_with r message signature))
unfolding verify
arm-verify r fresh ctx id message signature h s full =
    arm-verify_taken r fresh ctx h.asks.asked
    ∙ (filled-some ctx "KeyId" id _ h.asks.named h.id_full
        ∙ filled-some ctx "Message" message _ h.message_there h.message_full
        ∙ filled-some ctx "Signature" signature _ s full
        ∙ required-some ctx "SigningAlgorithm" "HMAC_SHA_256" _ h.algorithm_there)

sign_with-verify_with :
    (r : Runtime) (message : String) (k k' : KmsKey) (key message_bytes : Bytes)
    (mac : Bytes → Bytes)
    → IsLawful r
    → k'.key_material ≡ k.key_material
    → r.decode_hex k.key_material ≡ some key
    → r.decode_base64 message ≡ some message_bytes
    → r.new_from_slice key ≡ some mac
    → (sign_with r message k ≡ signed_answer k (r.encode_base64 (mac message_bytes)))
      × (verify_with r message (r.encode_base64 (mac message_bytes)) k' ≡ verdict k' true)
unfolding sign_with verify_with
sign_with-verify_with r message k k' key message_bytes mac law same material bytes made = (
  rw (material, bytes, made, sign_with) refl,
  rw (same, material, bytes, law.decode-tag key message_bytes mac made, made, verify_with)
      (ap (verdict k') (law.accepts_own key message_bytes mac made)),
)

-- Where base64 decodes what it encodes and HMAC accepts the tags that it makes: a message in base64 that
-- is signed with an enabled key is answered with base64 of its tag under the bytes of the key's material
-- and with the ARN of the key, and a request to verify this signature with any enabled key of the same
-- material, in whatever stores that key stands, is answered with a valid signature and the ARN of that
-- key.
pub sign-verify :
    (r : Runtime) (fresh : Fresh) (ctx ctx' : RequestContext)
    (stores stores' : AccountRegionBundle KmsStore) (id id' message : String) (k k' : KmsKey)
    (key message_bytes : Bytes) (mac : Bytes → Bytes)
    → IsLawful r
    → Has stores ctx.account_id ctx.region id k
    → Has stores' ctx'.account_id ctx'.region id' k'
    → k.key_state ≡ enabled
    → k'.key_state ≡ enabled
    → k'.key_material ≡ k.key_material
    → r.decode_hex k.key_material ≡ some key
    → r.decode_base64 message ≡ some message_bytes
    → r.new_from_slice key ≡ some mac
    → Signs ctx "Sign" id message
    → Signs ctx' "Verify" id' message
    → str_param ctx' "Signature" ≡ some (r.encode_base64 (mac message_bytes))
    → (r.encode_base64 (mac message_bytes) == "") ≡ false
    → ((dispatch r fresh ctx stores).1
        ≡ json_ok (
            object (
              ("Signature", str (r.encode_base64 (mac message_bytes)))
              ∷ ("SigningAlgorithm", str "HMAC_SHA_256")
              ∷ ("KeyId", str k.arn)
              ∷ [])))
      × ((dispatch r fresh ctx' stores').1
          ≡ json_ok (
              object (
                ("KeyId", str k'.arn)
                ∷ ("SignatureValid", bool true)
                ∷ ("SigningAlgorithm", str "HMAC_SHA_256")
                ∷ [])))
unfolding signed_answer verdict
sign-verify r fresh ctx ctx' stores stores' id id' message k k' key message_bytes mac law h h' on
      on' same material bytes made asks asks' s full =
    let (signed, verified) =
      sign_with-verify_with r message k k' key message_bytes mac law same material bytes made in
    (
      reads_key-answer r fresh ctx stores id k _ _ h (arm-sign r fresh ctx id message asks)
          ∙ if_enabled-on not_enabled _ k on
          ∙ signed,
      reads_key-answer r fresh ctx' stores' id' k' _ _ h'
            (arm-verify r fresh ctx' id' message _ asks' s full)
          ∙ if_enabled-on not_enabled _ k' on'
          ∙ verified,
    )
