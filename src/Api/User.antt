-- ===== src/Api/User.antt =====
-- api/v1alpha1/v2rayuser_types.go. The entries of the node list are pointers in the source; the
-- schema of the resource (config/crd/bases/vpn.hdcjh.xyz_v2rayusers.yaml) takes objects only, so
-- that none of them is nil.
use v2ray_operator.Prelude.{String, Bool, List}
use v2ray_operator.Prelude.Int.{ℤ}
use v2ray_operator.Prelude.Maps.{Dict}
use v2ray_operator.Api.Meta.{ObjectMeta, Condition}

pub record V2rayUserInfo : Type 0 where
  pub id : String
  pub level : ℤ
  pub email : String

pub record V2rayNodeInfo : Type 0 where
  pub name : String
  pub ip : String
  pub port : ℤ
  pub domain : String
  pub svc_name : String

pub record V2rayNodeList : Type 0 where
  pub size : ℤ
  pub virgin_ip : Bool
  pub info : List V2rayNodeInfo

pub record V2rayUserSpec : Type 0 where
  pub user : V2rayUserInfo
  pub node_list : Dict V2rayNodeList
  pub inbound_tag : String
  pub outbound_tag : String

pub record V2rayUserStatus : Type 0 where
  pub conditions : List Condition

pub record V2rayUser : Type 0 where
  pub metadata : ObjectMeta
  pub spec : V2rayUserSpec
  pub status : V2rayUserStatus
