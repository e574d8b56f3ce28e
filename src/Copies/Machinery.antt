-- ===== src/Copies/Machinery.antt =====
-- `DeepCopyInto` of `metav1.ObjectMeta`, `metav1.ListMeta` and `metav1.Condition`, which
-- k8s.io/apimachinery implements, and the values that these structs have in memory.
use v2ray_operator.Prelude.{ℕ, Option, none, some}
use v2ray_operator.Copies.Heap.{M, Ref}
use v2ray_operator.Copies.Heap.Deep.{View, Deep}
use v2ray_operator.Copies.Cells.{Foreign, Cell}

pub record Machinery (F : Foreign) : Type 1 where
  pub Meta : Type 0
  pub Listing : Type 0
  pub Report : Type 0
  pub view_meta : View (Cell F) F.ObjectMeta Meta
  pub view_list_meta : View (Cell F) F.ListMeta Listing
  pub view_condition : View (Cell F) F.Condition Report
  pub copy_meta : F.ObjectMeta → M (Cell F) F.ObjectMeta
  pub copy_list_meta : F.ListMeta → M (Cell F) F.ListMeta
  pub copy_condition : F.Condition → M (Cell F) F.Condition

-- What their documentation says of the three: they copy deeply.
pub record CopiesDeeply {F : Foreign} (K : Machinery F) : Type 0 where
  pub meta : Deep K.view_meta K.copy_meta
  pub list_meta : Deep K.view_list_meta K.copy_list_meta
  pub condition : Deep K.view_condition K.copy_condition

-- What `DeepCopyObject` returns: an interface value, nil or a pointer with its type.
pub data Object : Type 0 where
  v2ray v2ray_list v2ray_client v2ray_client_list v2ray_user v2ray_user_list : ℕ → Object

-- A pointer as an interface value: `if c := in.DeepCopy(); c != nil { return c }; return nil`.
abbrev pub as_object : (ℕ → Object) → Ref → Option Object
as_object kind none = none
as_object kind (some a) = some (kind a)
