-- ===== src/Copies/V2rayUserStatus.antt =====
-- The deep copies of `V2rayUserStatus`: those of its conditions.
use v2ray_operator.Prelude.{Option, List, refl}
use v2ray_operator.Copies.Heap.{◌>>=◌, M, Ref, pure, new_copy, copy_items}
use v2ray_operator.Copies.Heap.Deep.{View, Deep}
use v2ray_operator.Copies.Heap.Pointers.{map_option}
use v2ray_operator.Copies.Heap.Slices.{view_items, Deep-items}
use v2ray_operator.Copies.Heap.Fields.{Deep-one}
use v2ray_operator.Copies.Structs.{V2rayUserStatus}
use v2ray_operator.Copies.Cells.{Foreign, Cell}
use v2ray_operator.Copies.Machinery.{Machinery, CopiesDeeply}
use v2ray_operator.Copies.Cells.Users.{conditions_cell, user_status_cell}

module _ {F : Foreign} (K : Machinery F) where
  unfoldable pub deep_copy_into : V2rayUserStatus Ref → M (Cell F) (V2rayUserStatus Ref)
  unfolding copy_items
  deep_copy_into status = do
    conditions ← copy_items K.copy_condition status.conditions
    pure (record status { conditions = conditions })

  unfoldable pub deep_copy : Ref → M (Cell F) Ref
  unfolding new_copy deep_copy_into
  deep_copy p = new_copy {X = V2rayUserStatus Ref} deep_copy_into p

  abbrev pub view : View (Cell F) (V2rayUserStatus Ref) (V2rayUserStatus (Option (List K.Report)))
  view h status =
      map_option (λ conditions. record { conditions = conditions })
        (view_items K.view_condition h status.conditions)

  pub Deep-deep_copy_into : CopiesDeeply K → Deep view deep_copy_into
  unfolding deep_copy_into
  Deep-deep_copy_into deep =
      Deep-one (Deep-items deep.condition) (λ status. status.conditions)
        (λ status conditions. record status { conditions = conditions })
        (λ status conditions. record { conditions = conditions }) (λ h status conditions. refl)
