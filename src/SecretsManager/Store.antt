-- ===== src/SecretsManager/Store.antt =====
-- crates/services/secretsmanager/src/store.rs: secrets and the store of one account and region.
use openstack.Prelude.{ℕ, String, Bool, Option, none, List, [], Dict, any, find_if, ◌==◌}
use openstack.Framework.Json.{Json}

pub record SecretVersion : Type 0 where
  pub version_id : String
  pub secret_string : Option String
  pub secret_binary : Option (List ℕ)
  pub created : ℕ
  pub version_stages : List String

pub record Secret : Type 0 where
  pub arn : String
  pub name : String
  pub description : String
  pub created : ℕ
  pub last_changed : ℕ
  pub deleted : Bool
  pub deletion_date : Option ℕ
  pub versions : List SecretVersion
  pub tags : Dict String

-- The version carries the stage `AWSCURRENT`.
abbrev pub is_current : SecretVersion → Bool
is_current v = any (λ s. s == "AWSCURRENT") v.version_stages

-- `current_version`.
unfoldable pub current_version : Secret → Option SecretVersion
current_version s = find_if is_current s.versions

-- The cached response is the value that was printed.
pub record SecretsManagerStore : Type 0 where
  pub secrets : Dict Secret
  pub arn_index : Dict String
  pub list_cache : Option Json

-- `SecretsManagerStore::new`.
abbrev pub empty : SecretsManagerStore
empty = record { secrets = []; arn_index = []; list_cache = none }
