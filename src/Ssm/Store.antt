-- ===== src/Ssm/Store.antt =====
-- crates/services/ssm/src/store.rs: parameters and the store of one account and region. A version
-- is the bit pattern of its `i64`, and a time a number of nanoseconds.
use openstack.Prelude.{ℕ, String, Bool, Dict, [], ◌==◌, if◌then◌else◌}

pub data ParameterType : Type 0 where
  string : ParameterType
  string_list : ParameterType
  secure_string : ParameterType

unfoldable pub as_str : ParameterType → String
as_str string = "String"
as_str string_list = "StringList"
as_str secure_string = "SecureString"

-- `from_str`, which never fails.
unfoldable pub from_str : String → ParameterType
from_str s =
    if s == "StringList" then string_list else if s == "SecureString" then secure_string else string

pub record Parameter : Type 0 where
  pub name : String
  pub type_ : ParameterType
  pub value : String
  pub description : String
  pub version : ℕ
  pub last_modified : ℕ
  pub arn : String
  pub overwrite : Bool

pub record SsmStore : Type 0 where
  pub parameters : Dict Parameter

-- `SsmStore::new`.
abbrev pub empty : SsmStore
empty = record { parameters = [] }
