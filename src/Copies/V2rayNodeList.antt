-- ===== src/Copies/V2rayNodeList.antt =====
-- The deep copies of `V2rayNodeList`: a new slice of nodes.
use v2ray_operator.Prelude.{Option, List, refl}
use v2ray_operator.Copies.Heap.{◌>>=◌, M, Ref, pure, new_copy, copy_slice}
use v2ray_operator.Copies.Heap.Deep.{View, Deep}
use v2ray_operator.Copies.Heap.Pointers.{map_option}
use v2ray_operator.Copies.Heap.Slices.{view_slice, Deep-slice}
use v2ray_operator.Copies.Heap.Fields.{Deep-one}
use v2ray_operator.Copies.Structs.{V2rayNodeList}
use v2ray_operator.Copies.Cells.{Foreign, Cell}
use v2ray_operator.Api.User.{V2rayNodeInfo}
use v2ray_operator.Copies.Cells.Users.{node_infos_cell, node_list_cell}

module _ {F : Foreign} where
  unfoldable pub deep_copy_into : V2rayNodeList Ref → M (Cell F) (V2rayNodeList Ref)
  unfolding copy_slice
  deep_copy_into list = do
    info ← copy_slice V2rayNodeInfo list.info
    pure (record list { info = info })

  unfoldable pub deep_copy : Ref → M (Cell F) Ref
  unfolding new_copy deep_copy_into
  deep_copy p = new_copy {X = V2rayNodeList Ref} deep_copy_into p

  abbrev pub view : View (Cell F) (V2rayNodeList Ref) (V2rayNodeList (Option (List V2rayNodeInfo)))
  view h list =
      map_option (λ info. record { size = list.size; virgin_ip = list.virgin_ip; info = info })
        (view_slice V2rayNodeInfo h list.info)

  pub Deep-deep_copy_into : Deep view deep_copy_into
  unfolding deep_copy_into
  Deep-deep_copy_into =
      Deep-one (Deep-slice V2rayNodeInfo) (λ list. list.info)
        (λ list info. record list { info = info })
        (λ list info. record { size = list.size; virgin_ip = list.virgin_ip; info = info })
        (λ h list info. refl)
