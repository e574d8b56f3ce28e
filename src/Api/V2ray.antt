-- ===== src/Api/V2ray.antt =====
-- api/v1alpha1/v2ray_types.go
use v2ray_operator.Prelude.{List}
use v2ray_operator.Prelude.Int.{ℤ}
use v2ray_operator.Api.Meta.{ObjectMeta, Condition}

pub record V2raySpec : Type 0 where
  pub size : ℤ

pub record V2rayStatus : Type 0 where
  pub conditions : List Condition

pub record V2ray : Type 0 where
  pub metadata : ObjectMeta
  pub spec : V2raySpec
  pub status : V2rayStatus
