-- ===== src/Kms/Handlers/Keys.antt =====
-- crates/services/kms/src/provider.rs: the arms that make, describe and list keys and change their
-- states, and the random texts.
use openstack.Prelude.{
  ◌^◌, ◌%◌, ℕ, zero, suc, ◌-◌, ◌*◌, ◌%◌, ◌^◌, String, ◌++◌, Option, none, some, List, [], ◌∷◌, map,
  false, values, insert, unwrap_or, ltb, if◌then◌else◌,
}
use openstack.Prelude.Format.{hex_pad}
use openstack.Prelude.Text.{has_prefix, take_chars}
use openstack.Framework.Json.{Json, str, bool, object, array}
use openstack.Framework.Traits.{RequestContext, DispatchResponse}
use openstack.Framework.Service.{
  json_ok, json_error, member, str_param, as_i64, Operation, replies, reads, changes, required,
}
use openstack.Kms.Store.{
  KeyState, enabled, disabled, pending_deletion, is_pending, KmsKey, KmsStore,
}
use openstack.Kms.Handlers.{Option, Runtime, Fresh, done, key_metadata, reads_key, with_key}

-- The loop of `rand_hex`: each round hashes the text of the round before and gives at most eight bytes.
-- A round leaves less to do, so that as many rounds as bytes are enough.
unfoldable pub rand_rounds : (String → ℕ) → ℕ → ℕ → String → String
unfolding take_chars
rand_rounds hash_string zero remaining s = ""
rand_rounds hash_string (suc fuel) zero s = ""
rand_rounds hash_string (suc fuel) (suc more) s =
    let remaining = suc more in
    let chunk = hex_pad 16 (hash_string s) in
    let taken = if ltb remaining 8 then remaining else 8 in
    take_chars (taken * 2) chunk ++ rand_rounds hash_string fuel (remaining - taken) chunk

-- `rand_hex`, from the text of a random id. `with_capacity` panics for a capacity of 2 ^ 63 or more, and
-- the capacity wraps round at 2 ^ 64; none is the panic. That
-- there is so much memory is taken for granted.
unfoldable pub rand_hex : (String → ℕ) → ℕ → String → Option String
unfolding rand_rounds
rand_hex hash_string bytes seed =
    if ltb ((bytes * 2) % 2 ^ 64) (2 ^ 63)
    then some (rand_rounds hash_string bytes bytes seed)
    else none

-- The text of 32 random bytes, a number for which there is room.
unfoldable pub rand_32 : (String → ℕ) → String → String
unfolding rand_hex
rand_32 hash_string seed = unwrap_or (rand_hex hash_string 32 seed) ""

unfoldable pub key_arn_for_error : RequestContext → String → String
key_arn_for_error ctx id =
    if has_prefix "arn:aws:kms:" id
    then id
    else "arn:aws:kms:" ++ ctx.region ++ ":" ++ ctx.account_id ++ ":key/" ++ id

unfoldable pub new_key : Runtime → Fresh → RequestContext → KmsKey
unfolding rand_32
new_key r fresh ctx = record {
  key_id = fresh.uuid;
  arn = "arn:aws:kms:" ++ ctx.region ++ ":" ++ ctx.account_id ++ ":key/" ++ fresh.uuid;
  description = unwrap_or (str_param ctx "Description") "";
  key_state = enabled;
  created = fresh.now;
  key_material = rand_32 r.hash_string fresh.seed;
  aliases = [];
  tags = [];
}

abbrev pub create_in : KmsKey → KmsStore → KmsStore × DispatchResponse
create_in key store = (
  record store { keys = insert key.key_id key store.keys },
  json_ok (object (("KeyMetadata", key_metadata key) ∷ [])),
)

unfoldable pub create_key : Runtime → Fresh → RequestContext → Operation KmsStore
unfolding new_key
create_key r fresh ctx = changes (create_in (new_key r fresh ctx))

unfoldable pub describe_key : RequestContext → Operation KmsStore
unfolding key_arn_for_error
describe_key ctx = required ctx "KeyId" (λ id.
    reads_key id
      (json_error "NotFoundException" ("Key '" ++ key_arn_for_error ctx id ++ "' does not exist")
        400)
      (λ k. json_ok (object (("KeyMetadata", key_metadata k) ∷ []))))

-- A list of the answer, never truncated.
abbrev pub listing : String → List Json → DispatchResponse
listing name entries = json_ok (object ((name, array entries) ∷ ("Truncated", bool false) ∷ []))

unfoldable pub list_keys : Operation KmsStore
list_keys = reads (listing "Keys" []) (λ store.
    listing "Keys" (
      map (λ k. object (("KeyId", str k.key_id) ∷ ("KeyArn", str k.arn) ∷ [])) (values store.keys)))

abbrev pub set_state : KeyState → DispatchResponse → KmsKey → KmsKey × DispatchResponse
set_state state answer k = (record k { key_state = state }, answer)

unfoldable pub enable_key : RequestContext → Operation KmsStore
enable_key ctx = required ctx "KeyId" (λ id. changes (with_key id (set_state enabled done)))

unfoldable pub disable_key : RequestContext → Operation KmsStore
disable_key ctx = required ctx "KeyId" (λ id. changes (with_key id (set_state disabled done)))

abbrev pub schedule_in : Json → KmsKey → KmsKey × DispatchResponse
schedule_in date k =
    set_state pending_deletion
      (json_ok (object (("KeyId", str k.key_id) ∷ ("DeletionDate", date) ∷ []))) k

-- The date is computed first, and `chrono` panics where it has none.
unfoldable pub schedule_key_deletion : Runtime → Fresh → RequestContext → Operation KmsStore
schedule_key_deletion r fresh ctx = required ctx "KeyId" (λ id.
    let days = unwrap_or (member as_i64 "PendingWindowInDays" ctx.request_body) 30 in
    elim (r.days_later fresh.now days) [
      | none ↦ replies r.panicked
      | some date ↦ changes (with_key id (schedule_in date))
    ])

unfoldable pub cancel_in : KmsKey → KmsKey × DispatchResponse
cancel_in k =
    if is_pending k.key_state
    then set_state disabled (json_ok (object (("KeyId", str k.key_id) ∷ []))) k
    else (k, json_error "KMSInvalidStateException" "Key is not pending deletion" 400)

unfoldable pub cancel_key_deletion : RequestContext → Operation KmsStore
unfolding cancel_in
cancel_key_deletion ctx = required ctx "KeyId" (λ id. changes (with_key id cancel_in))
