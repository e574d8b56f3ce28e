-- ===== src/Tests/Configs.antt =====
-- A configuration whose inbounds and outbounds are added and removed.
use v2ray_operator.Prelude.{none, some, false, List, [], ◌∷◌, refl, ◌≡◌}
use v2ray_operator.Api.Client.{V2rayRegionAffinity, V2rayClient}
use v2ray_operator.V2fly.Structs.{V2rayInboundConfig, V2rayInstanceConfig}
use v2ray_operator.Client.Elect.{region_affinity_map, elect_from, svc_list_to_v2fly_config}
use v2ray_operator.Client.Reconcile.{deploy}
use v2ray_operator.Client.Reconcile.Deploys.{
  listing, Accepts, Converts, calls_at_each, deploy-applies_all,
}
use v2ray_operator.Prelude.Int.{pos}
use v2ray_operator.V2fly.Config.{server_addr, to_v2ray_v4_config}
use v2ray_operator.V2fly.Grpc.{
  V2rayGrpcApi, add_inbound, add_outbound, remove_inbound, remove_outbound,
}
use v2ray_operator.V2fly.Grpc.Configs.{
  AddedAll, RemovedAll, add_inbound-AddedAll, remove_inbound-RemovedAll,
}
use v2ray_operator.Cluster.Effect.{ok, err, done}
use v2ray_operator.Cluster.Requests.{Call}
use v2ray_operator.Cluster.Env.{Env, V4Config}
use v2ray_operator.Tests.World.{world, config, client, alpha, beta, gamma, refused}

-- The second outbound cannot be built.
abbrev detours : V4Config
detours = record {
  inbound_configs =
      record {
        tag = "ws+vless";
        build = ok (record { handler_tag = "ws+vless"; payload = 1 ∷ [] });
      }
      ∷ record { tag = "tcp"; build = ok (record { handler_tag = "tcp"; payload = 2 ∷ [] }) }
      ∷ [];
  outbound_configs =
      record { tag = "direct"; build = ok (record { handler_tag = "direct"; payload = 3 ∷ [] }) }
      ∷ record { tag = "block"; build = err refused }
      ∷ [];
}

abbrev decoding : Env
decoding = record world { decode_json_config = λ text. ok detours }

abbrev api : V2rayGrpcApi
api = record { config = record { host = "10.0.0.1"; port = pos 10085 } }

add_inbound-AddedAll_example :
    let addr = server_addr api.config in
    AddedAll (Call.add_inbound addr) detours.inbound_configs [] (add_inbound decoding api config [])
    × AddedAll
        (Call.add_outbound addr)
        detours.outbound_configs
        []
        (add_outbound decoding api config [])
unfolding to_v2ray_v4_config
add_inbound-AddedAll_example = add_inbound-AddedAll decoding api config detours [] refl

remove_inbound-RemovedAll_example :
    let addr = server_addr api.config in
    RemovedAll
      (Call.remove_inbound addr)
      detours.inbound_configs
      []
      (remove_inbound decoding api config [])
    × RemovedAll
        (Call.remove_outbound addr)
        detours.outbound_configs
        []
        (remove_outbound decoding api config [])
unfolding to_v2ray_v4_config
remove_inbound-RemovedAll_example =
    remove_inbound-RemovedAll decoding api config detours [] refl refl refl

-- A client with an inbound, applied to the servers of two regions.
abbrev an_inbound : V2rayInboundConfig
an_inbound = record {
  tag = "ws+vless";
  port = pos 443;
  protocol = "vless";
  settings = none;
  stream_settings = none;
  listen = "";
}

abbrev one_inbound : V2rayInstanceConfig
one_inbound = record config { inbounds = an_inbound ∷ [] }

abbrev one_detour : V4Config
one_detour = record {
  inbound_configs =
      record {
        tag = "ws+vless";
        build = ok (record { handler_tag = "ws+vless"; payload = 1 ∷ [] });
      }
      ∷ [];
  outbound_configs = [];
}

abbrev serving : Env
serving = record world {
  decode_json_config = λ text. ok one_detour;
  list_services = λ h ns labels. ok (alpha ∷ beta ∷ gamma ∷ []);
}

serving-Accepts : Accepts serving
serving-Accepts = record {
  dials = λ h addr. refl;
  inbounds = λ h addr b. refl;
  outbounds = λ h addr b. refl;
}

serving-Converts : Converts serving one_inbound one_detour
unfolding to_v2ray_v4_config
serving-Converts = record {
  converts = refl;
  no_inbounds = refl;
  no_outbounds = refl;
  inbounds_build = refl;
  outbounds_build = refl;
}

abbrev two_regions : List V2rayRegionAffinity
two_regions =
    record { region = "us"; nums = pos 1; virgin_ip = false }
    ∷ record { region = "jp"; nums = pos 4; virgin_ip = false }
    ∷ []

abbrev served : V2rayClient
served = record client {
  spec = record { v2ray = some one_inbound; affinity = some (record { regions = two_regions }) };
}

deploy-applies_all_example : deploy serving served [] ≡ (
  done tt,
  calls_at_each one_detour
      (svc_list_to_v2fly_config
        (elect_from (region_affinity_map two_regions []) (alpha ∷ beta ∷ gamma ∷ [])))
      (listing ∷ listing ∷ []),
)
deploy-applies_all_example =
    deploy-applies_all serving serving-Accepts served one_inbound one_detour serving-Converts []
      refl refl refl refl
