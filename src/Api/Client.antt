-- ===== src/Api/Client.antt =====
-- api/v1alpha1/v2rayclient_types.go
use v2ray_operator.Prelude.{String, Bool, Option, List}
use v2ray_operator.Prelude.Int.{ℤ}
use v2ray_operator.Api.Meta.{ObjectMeta, Condition}
use v2ray_operator.V2fly.Structs.{V2rayInstanceConfig}

pub record V2rayRegionAffinity : Type 0 where
  pub region : String
  pub nums : ℤ
  pub virgin_ip : Bool

pub record V2rayNodeAffinity : Type 0 where
  pub regions : List V2rayRegionAffinity

-- The first is a required field of the schema; the code does not test either for nil.
pub record V2rayClientSpec : Type 0 where
  pub v2ray : Option V2rayInstanceConfig
  pub affinity : Option V2rayNodeAffinity

pub record V2rayClientStatus : Type 0 where
  pub conditions : List Condition
  pub subscription_link : String

pub record V2rayClient : Type 0 where
  pub metadata : ObjectMeta
  pub spec : V2rayClientSpec
  pub status : V2rayClientStatus
