-- ===== src/Copies/V2rayNodeInfo.antt =====
-- The deep copies of `V2rayNodeInfo`, which holds no addresses.
use v2ray_operator.Copies.Heap.{M, Ref, pure, new_copy}
use v2ray_operator.Copies.Cells.{Foreign, Cell}
use v2ray_operator.Api.User.{V2rayNodeInfo}
use v2ray_operator.Copies.Cells.Users.{node_info_cell}

module _ {F : Foreign} where
  unfoldable pub deep_copy_into : V2rayNodeInfo → M (Cell F) V2rayNodeInfo
  deep_copy_into x = pure x

  unfoldable pub deep_copy : Ref → M (Cell F) Ref
  unfolding new_copy deep_copy_into
  deep_copy p = new_copy {X = V2rayNodeInfo} deep_copy_into p
