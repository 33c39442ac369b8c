-- ===== src/Kinesis/Provider.antt =====
-- crates/services/kinesis/src/provider.rs: `dispatch`. The store of the request's account and region is
-- found as `perform` says.
use openstack.Prelude.{ℕ, String, List, [], ◌∷◌}
use openstack.Framework.Traits.{RequestContext}
use openstack.Framework.Service.{Answer, Operation, perform, route, not_implemented}
use openstack.State.Bundle.{AccountRegionBundle}
use openstack.Kinesis.Store.{KinesisStore, empty}
use openstack.Kinesis.Handlers.{Runtime}
use openstack.Kinesis.Handlers.Management.{
  create_stream, delete_stream, describe_stream, describe_stream_summary, list_streams, list_shards,
  increase_retention, decrease_retention, split_shard, merge_shards,
}
use openstack.Kinesis.Handlers.Records.{put_record, put_records, get_shard_iterator, get_records}
use openstack.Kinesis.Handlers.Tags.{
  add_tags_to_stream, list_tags_for_stream, remove_tags_from_stream,
}

-- The arms of the `match` on the operation.
unfoldable pub arms : Runtime → ℕ → RequestContext → List (String × Operation KinesisStore)
arms r now ctx =
    ("CreateStream", create_stream now ctx)
    ∷ ("DeleteStream", delete_stream ctx)
    ∷ ("DescribeStream", describe_stream ctx)
    ∷ ("DescribeStreamSummary", describe_stream_summary ctx)
    ∷ ("ListStreams", list_streams)
    ∷ ("ListShards", list_shards ctx)
    ∷ ("IncreaseStreamRetentionPeriod", increase_retention ctx)
    ∷ ("DecreaseStreamRetentionPeriod", decrease_retention ctx)
    ∷ ("PutRecord", put_record r now ctx)
    ∷ ("PutRecords", put_records r now ctx)
    ∷ ("GetShardIterator", get_shard_iterator r ctx)
    ∷ ("GetRecords", get_records r ctx)
    ∷ ("SplitShard", split_shard ctx)
    ∷ ("MergeShards", merge_shards ctx)
    ∷ ("AddTagsToStream", add_tags_to_stream ctx)
    ∷ ("ListTagsForStream", list_tags_for_stream ctx)
    ∷ ("RemoveTagsFromStream", remove_tags_from_stream ctx)
    ∷ []

unfoldable pub arm : Runtime → ℕ → RequestContext → Operation KinesisStore
unfolding arms route not_implemented
arm r now ctx = route ctx.operation (arms r now ctx) (not_implemented ctx.operation)

-- `KinesisProvider::dispatch`.
unfoldable pub dispatch :
    Runtime → ℕ → RequestContext → AccountRegionBundle KinesisStore → Answer KinesisStore
unfolding perform arm
dispatch r now ctx stores = perform empty ctx stores (arm r now ctx)
