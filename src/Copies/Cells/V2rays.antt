-- ===== src/Copies/Cells/V2rays.antt =====
-- Memory that holds the types of the resource V2ray.
use v2ray_operator.Prelude.{Option, none, some, List, refl}
use v2ray_operator.Copies.Heap.{Ref, CellOf}
use v2ray_operator.Copies.Structs.{V2rayStatus, V2rayList}
use v2ray_operator.Api.V2ray.{V2raySpec}
use v2ray_operator.Copies.Cells.{
  Foreign, Cell, V2rayStruct, v2ray, v2ray_spec, v2ray_status, v2rays, v2ray_list,
}

module _ {F : Foreign} where
  abbrev as_v2ray : Cell F → Option (V2rayStruct F)
  as_v2ray (v2ray x) = some x
  as_v2ray held = none

  instance abbrev pub v2ray_cell : CellOf (Cell F) (V2rayStruct F)
  v2ray_cell = record { inject = v2ray; project = as_v2ray; project-inject = λ x. refl }

  abbrev as_v2ray_spec : Cell F → Option (V2raySpec)
  as_v2ray_spec (v2ray_spec x) = some x
  as_v2ray_spec held = none

  instance abbrev pub v2ray_spec_cell : CellOf (Cell F) (V2raySpec)
  v2ray_spec_cell = record {
    inject = v2ray_spec;
    project = as_v2ray_spec;
    project-inject = λ x. refl;
  }

  abbrev as_v2ray_status : Cell F → Option (V2rayStatus Ref)
  as_v2ray_status (v2ray_status x) = some x
  as_v2ray_status held = none

  instance abbrev pub v2ray_status_cell : CellOf (Cell F) (V2rayStatus Ref)
  v2ray_status_cell = record {
    inject = v2ray_status;
    project = as_v2ray_status;
    project-inject = λ x. refl;
  }

  abbrev as_v2rays : Cell F → Option (List (V2rayStruct F))
  as_v2rays (v2rays x) = some x
  as_v2rays held = none

  instance abbrev pub v2rays_cell : CellOf (Cell F) (List (V2rayStruct F))
  v2rays_cell = record { inject = v2rays; project = as_v2rays; project-inject = λ x. refl }

  abbrev as_v2ray_list : Cell F → Option (V2rayList F.ListMeta Ref)
  as_v2ray_list (v2ray_list x) = some x
  as_v2ray_list held = none

  instance abbrev pub v2ray_list_cell : CellOf (Cell F) (V2rayList F.ListMeta Ref)
  v2ray_list_cell = record {
    inject = v2ray_list;
    project = as_v2ray_list;
    project-inject = λ x. refl;
  }
