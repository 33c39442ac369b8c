-- ===== src/Kms/Provider.antt =====
-- crates/services/kms/src/provider.rs: `dispatch`.
use openstack.Prelude.{String, List, [], ◌∷◌}
use openstack.Framework.Traits.{RequestContext}
use openstack.Framework.Service.{Answer, Operation, perform, route, not_implemented}
use openstack.State.Bundle.{AccountRegionBundle}
use openstack.Kms.Store.{KmsStore, empty}
use openstack.Kms.Handlers.{Runtime, Fresh}
use openstack.Kms.Handlers.Keys.{
  create_key, describe_key, list_keys, enable_key, disable_key, schedule_key_deletion,
  cancel_key_deletion,
}
use openstack.Kms.Handlers.Aliases.{
  create_alias, list_aliases, delete_alias, tag_resource, untag_resource, list_resource_tags,
}
use openstack.Kms.Handlers.Ciphers.{
  encrypt, decrypt, generate_data_key, generate_random, sign, verify,
}

-- The arms of the `match` on the operation.
unfoldable pub arms : Runtime → Fresh → RequestContext → List (String × Operation KmsStore)
arms r fresh ctx =
    ("CreateKey", create_key r fresh ctx)
    ∷ ("DescribeKey", describe_key ctx)
    ∷ ("ListKeys", list_keys)
    ∷ ("EnableKey", enable_key ctx)
    ∷ ("DisableKey", disable_key ctx)
    ∷ ("ScheduleKeyDeletion", schedule_key_deletion r fresh ctx)
    ∷ ("CancelKeyDeletion", cancel_key_deletion ctx)
    ∷ ("CreateAlias", create_alias ctx)
    ∷ ("ListAliases", list_aliases ctx)
    ∷ ("DeleteAlias", delete_alias ctx)
    ∷ ("TagResource", tag_resource ctx)
    ∷ ("UntagResource", untag_resource ctx)
    ∷ ("ListResourceTags", list_resource_tags ctx)
    ∷ ("Encrypt", encrypt r ctx)
    ∷ ("Decrypt", decrypt r ctx)
    ∷ ("GenerateDataKey", generate_data_key r fresh ctx)
    ∷ ("GenerateDataKeyWithoutPlaintext", generate_data_key r fresh ctx)
    ∷ ("GenerateRandom", generate_random r fresh ctx)
    ∷ ("Sign", sign r ctx)
    ∷ ("Verify", verify r ctx)
    ∷ []

unfoldable pub arm : Runtime → Fresh → RequestContext → Operation KmsStore
unfolding arms route not_implemented
arm r fresh ctx = route ctx.operation (arms r fresh ctx) (not_implemented ctx.operation)

-- `KmsProvider::dispatch`.
unfoldable pub dispatch :
    Runtime → Fresh → RequestContext → AccountRegionBundle KmsStore → Answer KmsStore
unfolding perform arm
dispatch r fresh ctx stores = perform empty ctx stores (arm r fresh ctx)
