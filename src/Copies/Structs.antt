-- ===== src/Copies/Structs.antt =====
-- The structs of api/v1alpha1 and of internal/managers/v2fly/structs.go as they lie in memory. A
-- parameter is the type of a field behind which there is more memory: in memory it is an address,
-- in a value it is what stands there. Structs without such fields are those of Api and V2fly.
use v2ray_operator.Prelude.{String}
use v2ray_operator.Prelude.Int.{ℤ}
use v2ray_operator.Prelude.{Bool}
use v2ray_operator.Copies.Heap.{Ref}
use v2ray_operator.Api.User.{V2rayUserInfo}
use v2ray_operator.Api.V2ray.{V2raySpec}
use v2ray_operator.V2fly.Structs.{V2rayLogConfig}

-- `metav1.TypeMeta`
pub record TypeMeta : Type 0 where
  pub kind : String
  pub api_version : String

pub record V2rayNodeList (Info : Type 0) : Type 0 where
  pub size : ℤ
  pub virgin_ip : Bool
  pub info : Info

pub record V2rayUserSpec (Nodes : Type 0) : Type 0 where
  pub user : V2rayUserInfo
  pub node_list : Nodes
  pub inbound_tag : String
  pub outbound_tag : String

pub record V2rayUserStatus (Conditions : Type 0) : Type 0 where
  pub conditions : Conditions

pub record V2rayUser (Meta Spec Status : Type 0) : Type 0 where
  pub type_meta : TypeMeta
  pub object_meta : Meta
  pub spec : Spec
  pub status : Status

pub record V2rayUserList (Meta Items : Type 0) : Type 0 where
  pub type_meta : TypeMeta
  pub list_meta : Meta
  pub items : Items

pub record V2rayStatus (Conditions : Type 0) : Type 0 where
  pub conditions : Conditions

pub record V2ray (Meta Status : Type 0) : Type 0 where
  pub type_meta : TypeMeta
  pub object_meta : Meta
  pub spec : V2raySpec
  pub status : Status

pub record V2rayList (Meta Items : Type 0) : Type 0 where
  pub type_meta : TypeMeta
  pub list_meta : Meta
  pub items : Items

pub record V2rayNodeAffinity (Regions : Type 0) : Type 0 where
  pub regions : Regions

pub record V2rayClientSpec (Config Affinity : Type 0) : Type 0 where
  pub v2ray : Config
  pub affinity : Affinity

pub record V2rayClientStatus (Conditions : Type 0) : Type 0 where
  pub conditions : Conditions
  pub subscription_link : String

pub record V2rayClient (Meta Spec Status : Type 0) : Type 0 where
  pub type_meta : TypeMeta
  pub object_meta : Meta
  pub spec : Spec
  pub status : Status

pub record V2rayClientList (Meta Items : Type 0) : Type 0 where
  pub type_meta : TypeMeta
  pub list_meta : Meta
  pub items : Items

pub record V2rayInboundConfig : Type 0 where
  pub tag : String
  pub port : ℤ
  pub protocol : String
  pub settings : Ref
  pub stream_settings : Ref
  pub listen : String

pub record V2rayOutboundConfig : Type 0 where
  pub tag : String
  pub protocol : String
  pub settings : Ref

pub record V2rayRoutingRulesConfig : Type 0 where
  pub settings : Ref
  pub strategy : String

-- The five pointers are never followed by a copy, so a value has their addresses too.
pub record V2rayInstanceConfig (Inbounds Outbounds : Type 0) : Type 0 where
  pub log : V2rayLogConfig
  pub inbounds : Inbounds
  pub outbounds : Outbounds
  pub transport : Ref
  pub policy : Ref
  pub api : Ref
  pub stats : Ref
  pub routing : Ref
