-- ===== src/Copies/V2rayClient.antt =====
-- The deep copies of `V2rayClient`, field by field.
use v2ray_operator.Prelude.{Option, List, refl}
use v2ray_operator.Copies.Heap.{◌>>=◌, M, Ref, pure, new_copy}
use v2ray_operator.Copies.Heap.Deep.{View, Deep}
use v2ray_operator.Copies.Heap.Fields.{all_three, Deep-three}
use v2ray_operator.Copies.Structs.{V2rayClientStatus, V2rayClient}
use v2ray_operator.Copies.Cells.{Foreign, Cell, ClientStruct}
use v2ray_operator.Copies.Machinery.{Machinery, CopiesDeeply, Object, as_object}
use v2ray_operator.Copies.Cells.Clients.{client_cell}
use v2ray_operator.Copies.V2rayClientSpec
use v2ray_operator.Copies.V2rayClientStatus

module _ {F : Foreign} (K : Machinery F) where
  unfoldable pub deep_copy_into : ClientStruct F → M (Cell F) (ClientStruct F)
  unfolding V2rayClientSpec.deep_copy_into V2rayClientStatus.deep_copy_into
  deep_copy_into x = do
    object_meta ← K.copy_meta x.object_meta
    spec ← V2rayClientSpec.deep_copy_into x.spec
    status ← V2rayClientStatus.deep_copy_into K x.status
    pure (record x { object_meta = object_meta; spec = spec; status = status })

  unfoldable pub deep_copy : Ref → M (Cell F) Ref
  unfolding new_copy deep_copy_into
  deep_copy p = new_copy {X = ClientStruct F} deep_copy_into p

  unfoldable pub deep_copy_object : Ref → M (Cell F) (Option Object)
  unfolding deep_copy
  deep_copy_object p = do c ← deep_copy p; pure (as_object Object.v2ray_client c)

  abbrev pub Value : Type 0
  Value = V2rayClient K.Meta V2rayClientSpec.Value (V2rayClientStatus (Option (List K.Report)))

  abbrev pub view : View (Cell F) (ClientStruct F) Value
  view h x =
      all_three
        (λ object_meta spec status. record {
          type_meta = x.type_meta;
          object_meta = object_meta;
          spec = spec;
          status = status;
        })
        (K.view_meta h x.object_meta) (V2rayClientSpec.view h x.spec)
        (V2rayClientStatus.view K h x.status)

  pub Deep-deep_copy_into : CopiesDeeply K → Deep view deep_copy_into
  unfolding deep_copy_into
  Deep-deep_copy_into deep =
      Deep-three (deep.meta) (V2rayClientSpec.Deep-deep_copy_into)
        (V2rayClientStatus.Deep-deep_copy_into K deep) (λ x. x.object_meta) (λ x. x.spec)
        (λ x. x.status)
        (λ x object_meta spec status. record x {
          object_meta = object_meta;
          spec = spec;
          status = status;
        })
        (λ x object_meta spec status. record {
          type_meta = x.type_meta;
          object_meta = object_meta;
          spec = spec;
          status = status;
        })
        (λ h x object_meta spec status. refl)
