-- ===== src/Copies/V2raySpec.antt =====
-- The deep copies of `V2raySpec`, which holds no addresses.
use v2ray_operator.Copies.Heap.{M, Ref, pure, new_copy}
use v2ray_operator.Copies.Cells.{Foreign, Cell}
use v2ray_operator.Api.V2ray.{V2raySpec}
use v2ray_operator.Copies.Cells.V2rays.{v2ray_spec_cell}

module _ {F : Foreign} where
  unfoldable pub deep_copy_into : V2raySpec → M (Cell F) V2raySpec
  deep_copy_into x = pure x

  unfoldable pub deep_copy : Ref → M (Cell F) Ref
  unfolding new_copy deep_copy_into
  deep_copy p = new_copy {X = V2raySpec} deep_copy_into p
