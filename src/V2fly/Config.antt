-- ===== src/V2fly/Config.antt =====
-- internal/managers/v2fly/config.go, and the conversion to a v4 configuration of structs.go.
pub mod Addresses
use v2ray_operator.Prelude.{String, ◌<>◌, Option}
use v2ray_operator.Prelude.Int.{ℤ}
use v2ray_operator.Prelude.Text.{itoa}
use v2ray_operator.V2fly.Structs.{V2rayInstanceConfig}
use v2ray_operator.Cluster.Effect.{Reply, ok, err, wrap}
use v2ray_operator.Cluster.Env.{Env, V4Config}

pub record V2rayConfig : Type 0 where
  pub host : String
  pub port : ℤ

unfoldable pub server_addr : V2rayConfig → String
server_addr c = c.host <> ":" <> itoa c.port

parsed : Reply V4Config → Reply V4Config
parsed (ok c) = ok c
parsed (err e) = err (wrap "ToV2rayGrpcConfig parse error" e)

marshalled : (String → Reply V4Config) → Reply String → Reply V4Config
unfolding parsed
marshalled decode (ok text) = parsed (decode text)
marshalled decode (err e) = err (wrap "ToV2rayGrpcConfig marshal error" e)

-- `ToV2rayV4Config`. The receiver is a pointer, and nil is marshalled too.
unfoldable pub to_v2ray_v4_config : Env → Option V2rayInstanceConfig → Reply V4Config
unfolding marshalled
to_v2ray_v4_config E c = marshalled E.decode_json_config (E.marshal_config c)
