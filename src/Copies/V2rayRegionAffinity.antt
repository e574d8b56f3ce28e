-- ===== src/Copies/V2rayRegionAffinity.antt =====
-- The deep copies of `V2rayRegionAffinity`, which holds no addresses.
use v2ray_operator.Copies.Heap.{M, Ref, pure, new_copy}
use v2ray_operator.Copies.Cells.{Foreign, Cell}
use v2ray_operator.Api.Client.{V2rayRegionAffinity}
use v2ray_operator.Copies.Cells.Clients.{region_cell}

module _ {F : Foreign} where
  unfoldable pub deep_copy_into : V2rayRegionAffinity → M (Cell F) V2rayRegionAffinity
  deep_copy_into x = pure x

  unfoldable pub deep_copy : Ref → M (Cell F) Ref
  unfolding new_copy deep_copy_into
  deep_copy p = new_copy {X = V2rayRegionAffinity} deep_copy_into p
