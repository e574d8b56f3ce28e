-- ===== src/V2fly/Grpc/Remove.antt =====
-- `RemoveInbound` reads all tags before it sends anything.
use v2ray_operator.Prelude.{
  String, Bool, true, false, List, [], ◌∷◌, ◌==◌, ◌≡◌, refl, some, arith, if◌then◌else◌, is_empty,
}
use v2ray_operator.V2fly.Structs.{V2rayInstanceConfig}
use v2ray_operator.V2fly.Config.{to_v2ray_v4_config}
use v2ray_operator.V2fly.Grpc.{V2rayGrpcApi, tags_of, remove_inbound, labelled, error_of}
use v2ray_operator.Cluster.Effect.{ok, err, failed, ◌>>=◌}
use v2ray_operator.Cluster.Requests.{History}
use v2ray_operator.Cluster.Env.{Env, Detour, V4Config}

-- One of the tags is empty.
abbrev pub has_empty_tag : List Detour → Bool
has_empty_tag [] = false
has_empty_tag (c ∷ cs) = let rest = has_empty_tag cs in if c.tag == "" then true else rest

is_empty-has_empty_tag : (cs : List Detour) → has_empty_tag cs ≡ true → is_empty cs ≡ false
is_empty-has_empty_tag [] h = absurd (ground arith)
is_empty-has_empty_tag (c ∷ cs) h = refl

tags_of-empty :
    (text : String) (cs : List Detour)
    → has_empty_tag cs ≡ true
    → tags_of text cs ≡ err (error_of text)
unfolding tags_of
tags_of-empty text [] h = absurd (ground arith)
tags_of-empty text (c ∷ cs) h = grind (arith, tags_of-empty text cs)

-- Where one of the inbounds of a configuration that can be converted has an empty tag, removing them
-- fails before the first request, and no inbound is removed.
pub remove_inbound-empty_tag :
    (E : Env) (api : V2rayGrpcApi) (cfg : V2rayInstanceConfig) (c : V4Config) (h : History)
    → to_v2ray_v4_config E (some cfg) ≡ ok c
    → has_empty_tag c.inbound_configs ≡ true
    → remove_inbound E api cfg h
      ≡ (failed (error_of "V2rayGrpcApi.RemoveInbound empty inbound tag detected"), h)
unfolding remove_inbound labelled ◌>>=◌
remove_inbound-empty_tag E api cfg c h converted empty =
    rw (converted, is_empty-has_empty_tag c.inbound_configs empty)
      (rw
        (tags_of-empty "V2rayGrpcApi.RemoveInbound empty inbound tag detected" c.inbound_configs
          empty)
        refl)
