-- ===== src/Copies/V2rayUserSpec.antt =====
-- The deep copies of `V2rayUserSpec`. A map is the list of its entries, whose keys differ, in the
-- order of the loop.
use v2ray_operator.Prelude.{String, Option, List, refl}
use v2ray_operator.Prelude.Maps.{Dict}
use v2ray_operator.Copies.Heap.{◌>>=◌, M, Ref, pure, new_copy, copy_items}
use v2ray_operator.Copies.Heap.Deep.{View, Deep}
use v2ray_operator.Copies.Heap.Pointers.{map_option, view_pointer, Deep-pointer}
use v2ray_operator.Copies.Heap.Slices.{view_items, Deep-items}
use v2ray_operator.Copies.Heap.Fields.{Deep-one}
use v2ray_operator.Copies.Structs.{V2rayNodeList, V2rayUserSpec}
use v2ray_operator.Copies.Cells.{Foreign, Cell}
use v2ray_operator.Api.User.{V2rayNodeInfo}
use v2ray_operator.Copies.Cells.Users.{node_infos_cell, node_list_cell, nodes_cell, user_spec_cell}
use v2ray_operator.Copies.V2rayNodeList

abbrev pub Value : Type 0
Value = V2rayUserSpec (Option (Dict (Option (V2rayNodeList (Option (List V2rayNodeInfo))))))

module _ {F : Foreign} where
  -- An entry of the new map: a pointer to a new node list, or nil where the entry is nil.
  unfoldable pub copy_entry : String × Ref → M (Cell F) (String × Ref)
  unfolding new_copy V2rayNodeList.deep_copy_into
  copy_entry entry = do out ← new_copy V2rayNodeList.deep_copy_into entry.1; pure (entry.0, out)

  unfoldable pub deep_copy_into : V2rayUserSpec Ref → M (Cell F) (V2rayUserSpec Ref)
  unfolding copy_items copy_entry
  deep_copy_into spec = do
    node_list ← copy_items copy_entry spec.node_list
    pure (record spec { node_list = node_list })

  unfoldable pub deep_copy : Ref → M (Cell F) Ref
  unfolding new_copy deep_copy_into
  deep_copy p = new_copy {X = V2rayUserSpec Ref} deep_copy_into p

  abbrev view_entry :
      View (Cell F) (String × Ref) (String × Option (V2rayNodeList (Option (List V2rayNodeInfo))))
  view_entry h entry =
      map_option (λ list. (entry.0, list)) (view_pointer V2rayNodeList.view h entry.1)

  Deep-copy_entry : Deep view_entry copy_entry
  unfolding copy_entry
  Deep-copy_entry =
      Deep-one (Deep-pointer V2rayNodeList.Deep-deep_copy_into) (λ entry. entry.1)
        (λ entry out. (entry.0, out)) (λ entry list. (entry.0, list)) (λ h entry out. refl)

  abbrev pub view : View (Cell F) (V2rayUserSpec Ref) Value
  view h spec =
      map_option
        (λ node_list. record {
          user = spec.user;
          node_list = node_list;
          inbound_tag = spec.inbound_tag;
          outbound_tag = spec.outbound_tag;
        })
        (view_items view_entry h spec.node_list)

  pub Deep-deep_copy_into : Deep view deep_copy_into
  unfolding deep_copy_into
  Deep-deep_copy_into =
      Deep-one (Deep-items Deep-copy_entry) (λ spec. spec.node_list)
        (λ spec node_list. record spec { node_list = node_list })
        (λ spec node_list. record {
          user = spec.user;
          node_list = node_list;
          inbound_tag = spec.inbound_tag;
          outbound_tag = spec.outbound_tag;
        })
        (λ h spec node_list. refl)
