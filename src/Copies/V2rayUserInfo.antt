-- ===== src/Copies/V2rayUserInfo.antt =====
-- The deep copies of `V2rayUserInfo`, which holds no addresses.
use v2ray_operator.Copies.Heap.{M, Ref, pure, new_copy}
use v2ray_operator.Copies.Cells.{Foreign, Cell}
use v2ray_operator.Api.User.{V2rayUserInfo}
use v2ray_operator.Copies.Cells.Users.{user_info_cell}

module _ {F : Foreign} where
  unfoldable pub deep_copy_into : V2rayUserInfo → M (Cell F) V2rayUserInfo
  deep_copy_into x = pure x

  unfoldable pub deep_copy : Ref → M (Cell F) Ref
  unfolding new_copy deep_copy_into
  deep_copy p = new_copy {X = V2rayUserInfo} deep_copy_into p
