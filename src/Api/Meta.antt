-- ===== src/Api/Meta.antt =====
-- What all Kubernetes objects share: names, labels, finalizers, deletion, status conditions.
use v2ray_operator.Prelude.{ℕ, String, Option, none, List, []}
use v2ray_operator.Prelude.Maps.{Dict}

-- `types.NamespacedName` and `client.ObjectKey`
pub record ObjectKey : Type 0 where
  pub namespace : String
  pub name : String

-- `resource_version` is the server's; the source only hands it back.
pub record ObjectMeta : Type 0 where
  pub name : String
  pub namespace : String
  pub labels : Dict String
  pub annotations : Dict String
  pub finalizers : List String
  pub deletion_timestamp : Option ℕ
  pub resource_version : ℕ

-- `metav1.ConditionStatus`
pub data ConditionStatus : Type 0 where
  condition_true condition_false condition_unknown : ConditionStatus

-- `metav1.Condition`, its type spelled `kind`.
pub record Condition : Type 0 where
  pub kind : String
  pub status : ConditionStatus
  pub reason : String
  pub message : String

abbrev pub new_meta : String → String → ObjectMeta
new_meta name namespace = record {
  name = name;
  namespace = namespace;
  labels = [];
  annotations = [];
  finalizers = [];
  deletion_timestamp = none;
  resource_version = 0;
}
