-- ===== src/Copies/V2ray.antt =====
-- The deep copies of `V2ray`: its metadata and status hold addresses, its spec does not.
use v2ray_operator.Prelude.{Option, List, refl}
use v2ray_operator.Copies.Heap.{◌>>=◌, M, Ref, pure, new_copy}
use v2ray_operator.Copies.Heap.Deep.{View, Deep}
use v2ray_operator.Copies.Heap.Slices.{both}
use v2ray_operator.Copies.Heap.Fields.{Deep-two}
use v2ray_operator.Copies.Structs.{V2rayStatus, V2ray}
use v2ray_operator.Copies.Cells.{Foreign, Cell, V2rayStruct}
use v2ray_operator.Copies.Machinery.{Machinery, CopiesDeeply, Object, as_object}
use v2ray_operator.Copies.Cells.V2rays.{v2ray_cell}
use v2ray_operator.Copies.V2rayStatus

module _ {F : Foreign} (K : Machinery F) where
  unfoldable pub deep_copy_into : V2rayStruct F → M (Cell F) (V2rayStruct F)
  unfolding V2rayStatus.deep_copy_into
  deep_copy_into x = do
    object_meta ← K.copy_meta x.object_meta
    status ← V2rayStatus.deep_copy_into K x.status
    pure (record x { object_meta = object_meta; status = status })

  unfoldable pub deep_copy : Ref → M (Cell F) Ref
  unfolding new_copy deep_copy_into
  deep_copy p = new_copy {X = V2rayStruct F} deep_copy_into p

  unfoldable pub deep_copy_object : Ref → M (Cell F) (Option Object)
  unfolding deep_copy
  deep_copy_object p = do c ← deep_copy p; pure (as_object Object.v2ray c)

  abbrev pub Value : Type 0
  Value = V2ray K.Meta (V2rayStatus (Option (List K.Report)))

  abbrev pub view : View (Cell F) (V2rayStruct F) Value
  view h x =
      both
        (λ object_meta status. record {
          type_meta = x.type_meta;
          object_meta = object_meta;
          spec = x.spec;
          status = status;
        })
        (K.view_meta h x.object_meta) (V2rayStatus.view K h x.status)

  pub Deep-deep_copy_into : CopiesDeeply K → Deep view deep_copy_into
  unfolding deep_copy_into
  Deep-deep_copy_into deep =
      Deep-two (deep.meta) (V2rayStatus.Deep-deep_copy_into K deep) (λ x. x.object_meta)
        (λ x. x.status)
        (λ x object_meta status. record x { object_meta = object_meta; status = status })
        (λ x object_meta status. record {
          type_meta = x.type_meta;
          object_meta = object_meta;
          spec = x.spec;
          status = status;
        })
        (λ h x object_meta status. refl)
