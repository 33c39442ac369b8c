-- ===== src/Kinesis/Handlers/Tags.antt =====
-- crates/services/kinesis/src/provider.rs: the arms for the tags of a stream.
use openstack.Prelude.{String, false, Option, none, some, List, [], ◌∷◌, map}
use openstack.Framework.Json.{Json, str, bool, object, array, as_array, as_object}
use openstack.Framework.Traits.{RequestContext, DispatchResponse}
use openstack.Framework.Service.{json_ok, json_error, member, Operation, changes, updates, require}
use openstack.Kinesis.Store.{KinesisStream, KinesisStore}
use openstack.Kinesis.Shards.{add_tags, remove_tags}
use openstack.Kinesis.Handlers.{done, stream_not_found, with_stream, reads_stream}

abbrev named : RequestContext → (String → Operation KinesisStore) → Operation KinesisStore
named ctx f = require ctx "StreamName" "InvalidArgumentException" f

abbrev too_many : DispatchResponse
too_many = json_error "InvalidArgumentException" "Cannot have more than 50 tags for a stream" 400

unfoldable pub add_tags_in :
    Option (List (String × Json)) → KinesisStream → KinesisStream × DispatchResponse
add_tags_in none s = (s, done)
add_tags_in (some fs) s = elim (add_tags fs s) [ none ↦ (s, too_many) | some s' ↦ (s', done) ]

unfoldable pub add_tags_to_stream : RequestContext → Operation KinesisStore
unfolding add_tags_in
add_tags_to_stream ctx = named ctx (λ name. changes (
    with_stream name (stream_not_found name)
      (add_tags_in (member as_object "Tags" ctx.request_body))))

unfoldable pub list_tags_for_stream : RequestContext → Operation KinesisStore
list_tags_for_stream ctx = named ctx (λ name. reads_stream name (λ s.
    let tags = map (λ (k, v). object (("Key", str k) ∷ ("Value", str v) ∷ [])) s.tags in
    json_ok (object (("Tags", array tags) ∷ ("HasMoreTags", bool false) ∷ []))))

unfoldable pub remove_tags_in :
    Option (List Json) → KinesisStream → KinesisStream × DispatchResponse
remove_tags_in none s = (s, done)
remove_tags_in (some ks) s = (record s { tags = remove_tags ks s.tags }, done)

unfoldable pub remove_tags_from_stream : RequestContext → Operation KinesisStore
unfolding remove_tags_in
remove_tags_from_stream ctx = named ctx (λ name. updates (stream_not_found name) (
    with_stream name (stream_not_found name)
      (remove_tags_in (member as_array "TagKeys" ctx.request_body))))
