-- ===== src/Copies/Cells/Clients.antt =====
-- Memory that holds the types of the resource V2rayClient and its configuration.
use v2ray_operator.Prelude.{Option, none, some, List, refl}
use v2ray_operator.Copies.Heap.{Ref, CellOf}
use v2ray_operator.Copies.Structs.{
  V2rayNodeAffinity, V2rayClientSpec, V2rayClientStatus, V2rayClientList, V2rayInboundConfig,
  V2rayOutboundConfig, V2rayRoutingRulesConfig, V2rayInstanceConfig,
}
use v2ray_operator.Api.Client.{V2rayRegionAffinity}
use v2ray_operator.Copies.Cells.{
  Foreign, Cell, ClientStruct, client, client_spec, client_status, clients, client_list, region,
  regions, affinity, config, inbounds, outbounds, routing,
}

module _ {F : Foreign} where
  abbrev as_client : Cell F → Option (ClientStruct F)
  as_client (client x) = some x
  as_client held = none

  instance abbrev pub client_cell : CellOf (Cell F) (ClientStruct F)
  client_cell = record { inject = client; project = as_client; project-inject = λ x. refl }

  abbrev as_client_spec : Cell F → Option (V2rayClientSpec Ref Ref)
  as_client_spec (client_spec x) = some x
  as_client_spec held = none

  instance abbrev pub client_spec_cell : CellOf (Cell F) (V2rayClientSpec Ref Ref)
  client_spec_cell = record {
    inject = client_spec;
    project = as_client_spec;
    project-inject = λ x. refl;
  }

  abbrev as_client_status : Cell F → Option (V2rayClientStatus Ref)
  as_client_status (client_status x) = some x
  as_client_status held = none

  instance abbrev pub client_status_cell : CellOf (Cell F) (V2rayClientStatus Ref)
  client_status_cell = record {
    inject = client_status;
    project = as_client_status;
    project-inject = λ x. refl;
  }

  abbrev as_clients : Cell F → Option (List (ClientStruct F))
  as_clients (clients x) = some x
  as_clients held = none

  instance abbrev pub clients_cell : CellOf (Cell F) (List (ClientStruct F))
  clients_cell = record { inject = clients; project = as_clients; project-inject = λ x. refl }

  abbrev as_client_list : Cell F → Option (V2rayClientList F.ListMeta Ref)
  as_client_list (client_list x) = some x
  as_client_list held = none

  instance abbrev pub client_list_cell : CellOf (Cell F) (V2rayClientList F.ListMeta Ref)
  client_list_cell = record {
    inject = client_list;
    project = as_client_list;
    project-inject = λ x. refl;
  }

  abbrev as_region : Cell F → Option (V2rayRegionAffinity)
  as_region (region x) = some x
  as_region held = none

  instance abbrev pub region_cell : CellOf (Cell F) (V2rayRegionAffinity)
  region_cell = record { inject = region; project = as_region; project-inject = λ x. refl }

  abbrev as_regions : Cell F → Option (List V2rayRegionAffinity)
  as_regions (regions x) = some x
  as_regions held = none

  instance abbrev pub regions_cell : CellOf (Cell F) (List V2rayRegionAffinity)
  regions_cell = record { inject = regions; project = as_regions; project-inject = λ x. refl }

  abbrev as_affinity : Cell F → Option (V2rayNodeAffinity Ref)
  as_affinity (affinity x) = some x
  as_affinity held = none

  instance abbrev pub affinity_cell : CellOf (Cell F) (V2rayNodeAffinity Ref)
  affinity_cell = record { inject = affinity; project = as_affinity; project-inject = λ x. refl }

  abbrev as_config : Cell F → Option (V2rayInstanceConfig Ref Ref)
  as_config (config x) = some x
  as_config held = none

  instance abbrev pub config_cell : CellOf (Cell F) (V2rayInstanceConfig Ref Ref)
  config_cell = record { inject = config; project = as_config; project-inject = λ x. refl }

  abbrev as_inbounds : Cell F → Option (List V2rayInboundConfig)
  as_inbounds (inbounds x) = some x
  as_inbounds held = none

  instance abbrev pub inbounds_cell : CellOf (Cell F) (List V2rayInboundConfig)
  inbounds_cell = record { inject = inbounds; project = as_inbounds; project-inject = λ x. refl }

  abbrev as_outbounds : Cell F → Option (List V2rayOutboundConfig)
  as_outbounds (outbounds x) = some x
  as_outbounds held = none

  instance abbrev pub outbounds_cell : CellOf (Cell F) (List V2rayOutboundConfig)
  outbounds_cell = record { inject = outbounds; project = as_outbounds; project-inject = λ x. refl }

  abbrev as_routing : Cell F → Option (V2rayRoutingRulesConfig)
  as_routing (routing x) = some x
  as_routing held = none

  instance abbrev pub routing_cell : CellOf (Cell F) (V2rayRoutingRulesConfig)
  routing_cell = record { inject = routing; project = as_routing; project-inject = λ x. refl }
