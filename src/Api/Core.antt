-- ===== src/Api/Core.antt =====
-- Services, pods and nodes, as far as the controllers read them.
use v2ray_operator.Prelude.{String, List}
use v2ray_operator.Prelude.Int.{ℤ}
use v2ray_operator.Prelude.Maps.{Dict}
use v2ray_operator.Api.Meta.{ObjectMeta}

pub record ServicePort : Type 0 where
  pub name : String
  pub port : ℤ

pub record Service : Type 0 where
  pub metadata : ObjectMeta
  pub cluster_ip : String
  pub ports : List ServicePort
  pub selector : Dict String

pub record Pod : Type 0 where
  pub metadata : ObjectMeta
  pub node_name : String

pub record NodeAddress : Type 0 where
  pub kind : String
  pub address : String

pub record Node : Type 0 where
  pub metadata : ObjectMeta
  pub addresses : List NodeAddress
