-- ===== src/Kms/Handlers/Ciphers.antt =====
-- crates/services/kms/src/provider.rs: the arms that use a key.
use openstack.Prelude.{
  String, ◌++◌, Bool, true, ◌==◌, ◌||◌, Option, none, some, [], ◌∷◌, unwrap_or, if◌then◌else◌,
}
use openstack.Prelude.Text.{split_first}
use openstack.Framework.Json.{Json, str, bool, object, as_u64}
use openstack.Framework.Traits.{RequestContext, DispatchResponse}
use openstack.Framework.Service.{json_ok, json_error, member, Operation, replies, required}
use openstack.Kms.Store.{is_enabled, KmsKey, KmsStore}
use openstack.Kms.Handlers.{Runtime, Fresh, invalid_key, reads_key}
use openstack.Kms.Handlers.Keys.{rand_hex, rand_32}

-- Only an enabled key is used.
unfoldable pub if_enabled : String → (KmsKey → DispatchResponse) → KmsKey → DispatchResponse
if_enabled message f k =
    if is_enabled k.key_state then f k else json_error "DisabledException" message 400

-- base64 of the id of the key, a colon and the plaintext.
unfoldable pub envelope : Runtime → KmsKey → String → String
envelope r k plaintext = r.encode_base64 (r.as_bytes (k.key_id ++ (":" ++ plaintext)))

unfoldable pub encrypted : Runtime → String → KmsKey → DispatchResponse
unfolding envelope
encrypted r plaintext k = json_ok (
    object (
      ("CiphertextBlob", str (envelope r k plaintext))
      ∷ ("KeyId", str k.arn)
      ∷ ("EncryptionAlgorithm", str "SYMMETRIC_DEFAULT")
      ∷ []))

unfoldable pub encrypt : Runtime → RequestContext → Operation KmsStore
unfolding if_enabled
encrypt r ctx = required ctx "KeyId" (λ id. required ctx "Plaintext" (λ plaintext.
    reads_key id (invalid_key id) (if_enabled "Key is disabled" (encrypted r plaintext))))

unfoldable pub decrypted : String → KmsKey → DispatchResponse
decrypted plaintext k = json_ok (
    object (
      ("Plaintext", str plaintext)
      ∷ ("KeyId", str k.arn)
      ∷ ("EncryptionAlgorithm", str "SYMMETRIC_DEFAULT")
      ∷ []))

unfoldable pub decrypt : Runtime → RequestContext → Operation KmsStore
unfolding if_enabled
decrypt r ctx = required ctx "CiphertextBlob" (λ ciphertext. elim (r.decode_base64 ciphertext) [
  | none ↦ replies (json_error "InvalidCiphertextException" "Invalid ciphertext" 400)
  | some decoded ↦
      let (id, plaintext) = split_first b':' (r.from_utf8_lossy decoded) in
      reads_key id (invalid_key id) (if_enabled "Key is disabled" (decrypted plaintext))
])

unfoldable pub data_key : Runtime → Fresh → Bool → KmsKey → DispatchResponse
unfolding envelope rand_32
data_key r fresh without_plaintext k =
    let plaintext = r.encode_base64 (r.as_bytes (rand_32 r.hash_string fresh.seed)) in
    let ciphertext : String × Json = ("CiphertextBlob", str (envelope r k plaintext)) in
    if without_plaintext
    then json_ok (object (ciphertext ∷ ("KeyId", str k.arn) ∷ []))
    else json_ok (object (ciphertext ∷ ("Plaintext", str plaintext) ∷ ("KeyId", str k.arn) ∷ []))

unfoldable pub generate_data_key : Runtime → Fresh → RequestContext → Operation KmsStore
unfolding if_enabled data_key
generate_data_key r fresh ctx = required ctx "KeyId" (λ id. reads_key id (invalid_key id) (
    if_enabled "Key is disabled"
      (data_key r fresh (ctx.operation == "GenerateDataKeyWithoutPlaintext"))))

unfoldable pub generate_random : Runtime → Fresh → RequestContext → Operation KmsStore
unfolding rand_hex
generate_random r fresh ctx =
    let count = unwrap_or (member as_u64 "NumberOfBytes" ctx.request_body) 32 in
    elim (rand_hex r.hash_string count fresh.seed) [
      | none ↦ replies r.panicked
      | some random ↦
          replies (json_ok (object (("Plaintext", str (r.encode_base64 (r.as_bytes random))) ∷ [])))
    ]

abbrev pub invalid : String → DispatchResponse
invalid message = json_error "ValidationException" message 400

-- A member that is there and not empty.
abbrev pub filled : RequestContext → String → (String → Operation KmsStore) → Operation KmsStore
filled ctx key f =
    required ctx key (λ v. if v == "" then replies (invalid (key ++ " is required")) else f v)

-- The one algorithm, under either of its names.
abbrev pub with_algorithm : RequestContext → Operation KmsStore → Operation KmsStore
with_algorithm ctx operation = required ctx "SigningAlgorithm" (λ name.
    if name == "HMAC_SHA_256" || name == "HMAC_SHA256"
    then operation
    else replies (invalid "SigningAlgorithm must be HMAC_SHA_256"))

abbrev pub algorithm : Json
algorithm = str "HMAC_SHA_256"

abbrev pub no_mac : DispatchResponse
no_mac = json_error "KMSInternalException" "Failed to initialize HMAC" 500

abbrev pub key_not_found : String → DispatchResponse
key_not_found id = json_error "NotFoundException" ("Key '" ++ id ++ "' not found") 400

abbrev pub not_enabled : String
not_enabled = "Key is disabled or pending deletion"

-- What a step that can fail answers.
abbrev pub attempt {ℓ} :
    {A : Type ℓ} → Option A → DispatchResponse → (A → DispatchResponse) → DispatchResponse
attempt none refusal f = refusal
attempt (some a) refusal f = f a

unfoldable pub signed_answer : KmsKey → String → DispatchResponse
signed_answer k signature = json_ok (
    object
      (("Signature", str signature) ∷ ("SigningAlgorithm", algorithm) ∷ ("KeyId", str k.arn) ∷ []))

unfoldable pub sign_with : Runtime → String → KmsKey → DispatchResponse
unfolding signed_answer
sign_with r message k =
    attempt (r.decode_hex k.key_material) (invalid "Invalid key material") (λ key_bytes.
      attempt (r.decode_base64 message) (invalid "Message must be valid base64") (λ message_bytes.
        attempt (r.new_from_slice key_bytes) no_mac
          (λ mac. signed_answer k (r.encode_base64 (mac message_bytes)))))

unfoldable pub sign : Runtime → RequestContext → Operation KmsStore
unfolding if_enabled sign_with
sign r ctx = filled ctx "KeyId" (λ id. filled ctx "Message" (λ message.
    with_algorithm ctx
      (reads_key id (key_not_found id) (if_enabled not_enabled (sign_with r message)))))

unfoldable pub verdict : KmsKey → Bool → DispatchResponse
verdict k valid =
    if valid
    then json_ok (
        object (
          ("KeyId", str k.arn)
          ∷ ("SignatureValid", bool true)
          ∷ ("SigningAlgorithm", algorithm)
          ∷ []))
    else json_error "KMSInvalidSignatureException"
        "The request was rejected because the specified signing algorithm is not supported for the given key type, or the signature does not match the message."
        400

unfoldable pub verify_with : Runtime → String → String → KmsKey → DispatchResponse
unfolding verdict
verify_with r message signature k =
    attempt (r.decode_hex k.key_material) (invalid "Invalid key material") (λ key_bytes.
      attempt (r.decode_base64 message) (invalid "Message must be valid base64") (λ message_bytes.
        attempt (r.decode_base64 signature) (invalid "Signature must be valid base64") (λ provided.
          attempt (r.new_from_slice key_bytes) no_mac
            (λ mac. verdict k (r.verify_slice key_bytes message_bytes provided)))))

unfoldable pub verify : Runtime → RequestContext → Operation KmsStore
unfolding if_enabled verify_with
verify r ctx = filled ctx "KeyId" (λ id. filled ctx "Message" (λ message.
    filled ctx "Signature" (λ signature. with_algorithm ctx (
      reads_key id (key_not_found id) (if_enabled not_enabled (verify_with r message signature))))))
