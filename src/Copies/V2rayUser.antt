-- ===== src/Copies/V2rayUser.antt =====
-- The deep copies of `V2rayUser`, field by field.
use v2ray_operator.Prelude.{Option, List, refl}
use v2ray_operator.Copies.Heap.{◌>>=◌, M, Ref, pure, new_copy}
use v2ray_operator.Copies.Heap.Deep.{View, Deep}
use v2ray_operator.Copies.Heap.Fields.{all_three, Deep-three}
use v2ray_operator.Copies.Structs.{V2rayUserStatus, V2rayUser}
use v2ray_operator.Copies.Cells.{Foreign, Cell, UserStruct}
use v2ray_operator.Copies.Machinery.{Machinery, CopiesDeeply, Object, as_object}
use v2ray_operator.Copies.Cells.Users.{user_cell}
use v2ray_operator.Copies.V2rayUserSpec
use v2ray_operator.Copies.V2rayUserStatus

module _ {F : Foreign} (K : Machinery F) where
  unfoldable pub deep_copy_into : UserStruct F → M (Cell F) (UserStruct F)
  unfolding V2rayUserSpec.deep_copy_into V2rayUserStatus.deep_copy_into
  deep_copy_into x = do
    object_meta ← K.copy_meta x.object_meta
    spec ← V2rayUserSpec.deep_copy_into x.spec
    status ← V2rayUserStatus.deep_copy_into K x.status
    pure (record x { object_meta = object_meta; spec = spec; status = status })

  unfoldable pub deep_copy : Ref → M (Cell F) Ref
  unfolding new_copy deep_copy_into
  deep_copy p = new_copy {X = UserStruct F} deep_copy_into p

  unfoldable pub deep_copy_object : Ref → M (Cell F) (Option Object)
  unfolding deep_copy
  deep_copy_object p = do c ← deep_copy p; pure (as_object Object.v2ray_user c)

  abbrev pub Value : Type 0
  Value = V2rayUser K.Meta V2rayUserSpec.Value (V2rayUserStatus (Option (List K.Report)))

  abbrev pub view : View (Cell F) (UserStruct F) Value
  view h x =
      all_three
        (λ object_meta spec status. record {
          type_meta = x.type_meta;
          object_meta = object_meta;
          spec = spec;
          status = status;
        })
        (K.view_meta h x.object_meta) (V2rayUserSpec.view h x.spec)
        (V2rayUserStatus.view K h x.status)

  pub Deep-deep_copy_into : CopiesDeeply K → Deep view deep_copy_into
  unfolding deep_copy_into
  Deep-deep_copy_into deep =
      Deep-three (deep.meta) (V2rayUserSpec.Deep-deep_copy_into)
        (V2rayUserStatus.Deep-deep_copy_into K deep) (λ x. x.object_meta) (λ x. x.spec)
        (λ x. x.status)
        (λ x object_meta spec status. record x {
          object_meta = object_meta;
          spec = spec;
          status = status;
        })
        (λ x object_meta spec status. record {
          type_meta = x.type_meta;
          object_meta = object_meta;
          spec = spec;
          status = status;
        })
        (λ h x object_meta spec status. refl)
