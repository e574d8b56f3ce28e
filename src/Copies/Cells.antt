-- ===== src/Copies/Cells.antt =====
-- The kinds of memory: a cell for each type that is allocated, and cells of other packages.
pub mod Users
pub mod V2rays
pub mod Clients
use v2ray_operator.Prelude.{List}
use v2ray_operator.Prelude.Maps.{Dict}
use v2ray_operator.Copies.Heap.{Ref}
use v2ray_operator.Copies.Structs.{
  V2rayNodeList, V2rayUserSpec, V2rayUserStatus, V2rayUser, V2rayUserList, V2rayStatus, V2ray,
  V2rayList, V2rayNodeAffinity, V2rayClientSpec, V2rayClientStatus, V2rayClient, V2rayClientList,
  V2rayInboundConfig, V2rayOutboundConfig, V2rayRoutingRulesConfig, V2rayInstanceConfig,
}
use v2ray_operator.Api.User.{V2rayUserInfo, V2rayNodeInfo}
use v2ray_operator.Api.V2ray.{V2raySpec}
use v2ray_operator.Api.Client.{V2rayRegionAffinity}

-- The structs `metav1.ObjectMeta`, `metav1.ListMeta` and `metav1.Condition`, which are not the
-- program's, and the other memory that they lead to.
pub record Foreign : Type 1 where
  pub ObjectMeta : Type 0
  pub ListMeta : Type 0
  pub Condition : Type 0
  pub Other : Type 0

abbrev pub UserStruct : Foreign → Type 0
UserStruct F = V2rayUser F.ObjectMeta (V2rayUserSpec Ref) (V2rayUserStatus Ref)

abbrev pub V2rayStruct : Foreign → Type 0
V2rayStruct F = V2ray F.ObjectMeta (V2rayStatus Ref)

abbrev pub ClientStruct : Foreign → Type 0
ClientStruct F = V2rayClient F.ObjectMeta (V2rayClientSpec Ref Ref) (V2rayClientStatus Ref)

pub data Cell (F : Foreign) : Type 0 where
  user : UserStruct F → Cell F
  user_spec : V2rayUserSpec Ref → Cell F
  user_status : V2rayUserStatus Ref → Cell F
  user_info : V2rayUserInfo → Cell F
  node_info : V2rayNodeInfo → Cell F
  node_infos : List V2rayNodeInfo → Cell F
  node_list : V2rayNodeList Ref → Cell F
  nodes : Dict Ref → Cell F
  users : List (UserStruct F) → Cell F
  user_list : V2rayUserList F.ListMeta Ref → Cell F
  conditions : List F.Condition → Cell F
  v2ray : V2rayStruct F → Cell F
  v2ray_spec : V2raySpec → Cell F
  v2ray_status : V2rayStatus Ref → Cell F
  v2rays : List (V2rayStruct F) → Cell F
  v2ray_list : V2rayList F.ListMeta Ref → Cell F
  client : ClientStruct F → Cell F
  client_spec : V2rayClientSpec Ref Ref → Cell F
  client_status : V2rayClientStatus Ref → Cell F
  clients : List (ClientStruct F) → Cell F
  client_list : V2rayClientList F.ListMeta Ref → Cell F
  region : V2rayRegionAffinity → Cell F
  regions : List V2rayRegionAffinity → Cell F
  affinity : V2rayNodeAffinity Ref → Cell F
  config : V2rayInstanceConfig Ref Ref → Cell F
  inbounds : List V2rayInboundConfig → Cell F
  outbounds : List V2rayOutboundConfig → Cell F
  routing : V2rayRoutingRulesConfig → Cell F
  other : F.Other → Cell F
