-- ===== src/Copies/V2rayClientSpec.antt =====
-- The deep copies of `V2rayClientSpec`, whose configuration is copied by the code of structs.go.
use v2ray_operator.Prelude.{Option, List, refl}
use v2ray_operator.Copies.Heap.{◌>>=◌, M, Ref, pure, new_copy}
use v2ray_operator.Copies.Heap.Deep.{View, Deep}
use v2ray_operator.Copies.Heap.Pointers.{view_pointer, Deep-pointer}
use v2ray_operator.Copies.Heap.Slices.{both}
use v2ray_operator.Copies.Heap.Fields.{Deep-two}
use v2ray_operator.Copies.Structs.{V2rayNodeAffinity, V2rayClientSpec}
use v2ray_operator.Api.Client.{V2rayRegionAffinity}
use v2ray_operator.Copies.Cells.{Foreign, Cell}
use v2ray_operator.Copies.Cells.Clients.{config_cell, affinity_cell, client_spec_cell}
use v2ray_operator.Copies.V2rayInstanceConfig
use v2ray_operator.Copies.V2rayNodeAffinity

abbrev pub Value : Type 0
Value =
    V2rayClientSpec (Option (V2rayInstanceConfig.Value))
      (Option (V2rayNodeAffinity (Option (List V2rayRegionAffinity))))

module _ {F : Foreign} where
  unfoldable pub deep_copy_into : V2rayClientSpec Ref Ref → M (Cell F) (V2rayClientSpec Ref Ref)
  unfolding new_copy V2rayInstanceConfig.deep_copy V2rayNodeAffinity.deep_copy_into
  deep_copy_into spec = do
    v2ray ← V2rayInstanceConfig.deep_copy spec.v2ray
    affinity ← new_copy V2rayNodeAffinity.deep_copy_into spec.affinity
    pure (record spec { v2ray = v2ray; affinity = affinity })

  unfoldable pub deep_copy : Ref → M (Cell F) Ref
  unfolding new_copy deep_copy_into
  deep_copy p = new_copy {X = V2rayClientSpec Ref Ref} deep_copy_into p

  abbrev pub view : View (Cell F) (V2rayClientSpec Ref Ref) (Value)
  view h spec =
      both (λ v2ray affinity. record { v2ray = v2ray; affinity = affinity })
        (view_pointer V2rayInstanceConfig.view h spec.v2ray)
        (view_pointer V2rayNodeAffinity.view h spec.affinity)

  pub Deep-deep_copy_into : Deep view deep_copy_into
  unfolding deep_copy_into V2rayInstanceConfig.deep_copy
  Deep-deep_copy_into =
      Deep-two (Deep-pointer V2rayInstanceConfig.Deep-deep_copy_into)
        (Deep-pointer V2rayNodeAffinity.Deep-deep_copy_into) (λ spec. spec.v2ray)
        (λ spec. spec.affinity)
        (λ spec v2ray affinity. record spec { v2ray = v2ray; affinity = affinity })
        (λ spec v2ray affinity. record { v2ray = v2ray; affinity = affinity })
        (λ h spec v2ray affinity. refl)
