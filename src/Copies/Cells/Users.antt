-- ===== src/Copies/Cells/Users.antt =====
-- Memory that holds the types of the resource V2rayUser, and conditions.
use v2ray_operator.Prelude.{Option, none, some, List, refl}
use v2ray_operator.Prelude.Maps.{Dict}
use v2ray_operator.Copies.Heap.{Ref, CellOf}
use v2ray_operator.Copies.Structs.{V2rayNodeList, V2rayUserSpec, V2rayUserStatus, V2rayUserList}
use v2ray_operator.Api.User.{V2rayUserInfo, V2rayNodeInfo}
use v2ray_operator.Copies.Cells.{
  Foreign, Cell, UserStruct, user, user_spec, user_status, user_info, node_info, node_infos,
  node_list, nodes, users, user_list, conditions,
}

module _ {F : Foreign} where
  abbrev as_user : Cell F → Option (UserStruct F)
  as_user (user x) = some x
  as_user held = none

  instance abbrev pub user_cell : CellOf (Cell F) (UserStruct F)
  user_cell = record { inject = user; project = as_user; project-inject = λ x. refl }

  abbrev as_user_spec : Cell F → Option (V2rayUserSpec Ref)
  as_user_spec (user_spec x) = some x
  as_user_spec held = none

  instance abbrev pub user_spec_cell : CellOf (Cell F) (V2rayUserSpec Ref)
  user_spec_cell = record { inject = user_spec; project = as_user_spec; project-inject = λ x. refl }

  abbrev as_user_status : Cell F → Option (V2rayUserStatus Ref)
  as_user_status (user_status x) = some x
  as_user_status held = none

  instance abbrev pub user_status_cell : CellOf (Cell F) (V2rayUserStatus Ref)
  user_status_cell = record {
    inject = user_status;
    project = as_user_status;
    project-inject = λ x. refl;
  }

  abbrev as_user_info : Cell F → Option (V2rayUserInfo)
  as_user_info (user_info x) = some x
  as_user_info held = none

  instance abbrev pub user_info_cell : CellOf (Cell F) (V2rayUserInfo)
  user_info_cell = record { inject = user_info; project = as_user_info; project-inject = λ x. refl }

  abbrev as_node_info : Cell F → Option (V2rayNodeInfo)
  as_node_info (node_info x) = some x
  as_node_info held = none

  instance abbrev pub node_info_cell : CellOf (Cell F) (V2rayNodeInfo)
  node_info_cell = record { inject = node_info; project = as_node_info; project-inject = λ x. refl }

  abbrev as_node_infos : Cell F → Option (List V2rayNodeInfo)
  as_node_infos (node_infos x) = some x
  as_node_infos held = none

  instance abbrev pub node_infos_cell : CellOf (Cell F) (List V2rayNodeInfo)
  node_infos_cell = record {
    inject = node_infos;
    project = as_node_infos;
    project-inject = λ x. refl;
  }

  abbrev as_node_list : Cell F → Option (V2rayNodeList Ref)
  as_node_list (node_list x) = some x
  as_node_list held = none

  instance abbrev pub node_list_cell : CellOf (Cell F) (V2rayNodeList Ref)
  node_list_cell = record { inject = node_list; project = as_node_list; project-inject = λ x. refl }

  abbrev as_nodes : Cell F → Option (Dict Ref)
  as_nodes (nodes x) = some x
  as_nodes held = none

  instance abbrev pub nodes_cell : CellOf (Cell F) (Dict Ref)
  nodes_cell = record { inject = nodes; project = as_nodes; project-inject = λ x. refl }

  abbrev as_users : Cell F → Option (List (UserStruct F))
  as_users (users x) = some x
  as_users held = none

  instance abbrev pub users_cell : CellOf (Cell F) (List (UserStruct F))
  users_cell = record { inject = users; project = as_users; project-inject = λ x. refl }

  abbrev as_user_list : Cell F → Option (V2rayUserList F.ListMeta Ref)
  as_user_list (user_list x) = some x
  as_user_list held = none

  instance abbrev pub user_list_cell : CellOf (Cell F) (V2rayUserList F.ListMeta Ref)
  user_list_cell = record { inject = user_list; project = as_user_list; project-inject = λ x. refl }

  abbrev as_conditions : Cell F → Option (List F.Condition)
  as_conditions (conditions x) = some x
  as_conditions held = none

  instance abbrev pub conditions_cell : CellOf (Cell F) (List F.Condition)
  conditions_cell = record {
    inject = conditions;
    project = as_conditions;
    project-inject = λ x. refl;
  }
