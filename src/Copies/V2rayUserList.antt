-- ===== src/Copies/V2rayUserList.antt =====
-- The deep copies of `V2rayUserList`, item by item.
use v2ray_operator.Prelude.{Option, List, refl}
use v2ray_operator.Copies.Heap.{◌>>=◌, M, Ref, pure, new_copy, copy_items}
use v2ray_operator.Copies.Heap.Deep.{View, Deep}
use v2ray_operator.Copies.Heap.Slices.{both, view_items, Deep-items}
use v2ray_operator.Copies.Heap.Fields.{Deep-two}
use v2ray_operator.Copies.Structs.{V2rayUserList}
use v2ray_operator.Copies.Cells.{Foreign, Cell}
use v2ray_operator.Copies.Machinery.{Machinery, CopiesDeeply, Object, as_object}
use v2ray_operator.Copies.Cells.Users.{users_cell, user_list_cell}
use v2ray_operator.Copies.V2rayUser

module _ {F : Foreign} (K : Machinery F) where
  unfoldable pub deep_copy_into :
      V2rayUserList F.ListMeta Ref → M (Cell F) (V2rayUserList F.ListMeta Ref)
  unfolding copy_items V2rayUser.deep_copy_into
  deep_copy_into x = do
    list_meta ← K.copy_list_meta x.list_meta
    items ← copy_items (V2rayUser.deep_copy_into K) x.items
    pure (record x { list_meta = list_meta; items = items })

  unfoldable pub deep_copy : Ref → M (Cell F) Ref
  unfolding new_copy deep_copy_into
  deep_copy p = new_copy {X = V2rayUserList F.ListMeta Ref} deep_copy_into p

  unfoldable pub deep_copy_object : Ref → M (Cell F) (Option Object)
  unfolding deep_copy
  deep_copy_object p = do c ← deep_copy p; pure (as_object Object.v2ray_user_list c)

  abbrev pub Value : Type 0
  Value = V2rayUserList K.Listing (Option (List (V2rayUser.Value K)))

  abbrev pub view : View (Cell F) (V2rayUserList F.ListMeta Ref) Value
  view h x =
      both
        (λ list_meta items. record {
          type_meta = x.type_meta;
          list_meta = list_meta;
          items = items;
        })
        (K.view_list_meta h x.list_meta) (view_items (V2rayUser.view K) h x.items)

  pub Deep-deep_copy_into : CopiesDeeply K → Deep view deep_copy_into
  unfolding deep_copy_into
  Deep-deep_copy_into deep =
      Deep-two (deep.list_meta) (Deep-items (V2rayUser.Deep-deep_copy_into K deep))
        (λ x. x.list_meta) (λ x. x.items)
        (λ x list_meta items. record x { list_meta = list_meta; items = items })
        (λ x list_meta items. record {
          type_meta = x.type_meta;
          list_meta = list_meta;
          items = items;
        })
        (λ h x list_meta items. refl)
