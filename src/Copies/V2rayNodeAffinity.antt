-- ===== src/Copies/V2rayNodeAffinity.antt =====
-- The deep copies of `V2rayNodeAffinity`: a new slice of regions.
use v2ray_operator.Prelude.{Option, List, refl}
use v2ray_operator.Copies.Heap.{◌>>=◌, M, Ref, pure, new_copy, copy_slice}
use v2ray_operator.Copies.Heap.Deep.{View, Deep}
use v2ray_operator.Copies.Heap.Pointers.{map_option}
use v2ray_operator.Copies.Heap.Slices.{view_slice, Deep-slice}
use v2ray_operator.Copies.Heap.Fields.{Deep-one}
use v2ray_operator.Copies.Structs.{V2rayNodeAffinity}
use v2ray_operator.Copies.Cells.{Foreign, Cell}
use v2ray_operator.Api.Client.{V2rayRegionAffinity}
use v2ray_operator.Copies.Cells.Clients.{regions_cell, affinity_cell}

module _ {F : Foreign} where
  unfoldable pub deep_copy_into : V2rayNodeAffinity Ref → M (Cell F) (V2rayNodeAffinity Ref)
  unfolding copy_slice
  deep_copy_into affinity = do
    regions ← copy_slice V2rayRegionAffinity affinity.regions
    pure (record affinity { regions = regions })

  unfoldable pub deep_copy : Ref → M (Cell F) Ref
  unfolding new_copy deep_copy_into
  deep_copy p = new_copy {X = V2rayNodeAffinity Ref} deep_copy_into p

  abbrev pub view :
      View (Cell F) (V2rayNodeAffinity Ref) (V2rayNodeAffinity (Option (List V2rayRegionAffinity)))
  view h affinity =
      map_option (λ regions. record { regions = regions })
        (view_slice V2rayRegionAffinity h affinity.regions)

  pub Deep-deep_copy_into : Deep view deep_copy_into
  unfolding deep_copy_into
  Deep-deep_copy_into =
      Deep-one (Deep-slice V2rayRegionAffinity) (λ affinity. affinity.regions)
        (λ affinity regions. record affinity { regions = regions })
        (λ affinity regions. record { regions = regions }) (λ h affinity regions. refl)
