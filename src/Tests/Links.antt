-- ===== src/Tests/Links.antt =====
-- Links and subscriptions.
use v2ray_operator.Prelude.{String, true, false, none, some, List, [], ◌∷◌, ◌≡◌, refl}
use v2ray_operator.Prelude.Int.{pos}
use v2ray_operator.Cluster.Effect.{ok, done}
use v2ray_operator.Cluster.Trace.{panics, is_done}
use v2ray_operator.V2fly.Structs.{
  V2rayInboundSettingsClientConfig, V2rayInboundSettingsConfig, V2rayInboundStreamSettingsConfig,
  V2rayInboundStreamSettingsWsSettingsConfig, V2rayInboundConfig,
}
use v2ray_operator.V2fly.Links.{
  SharedLink, new_shared_link_from_inbound, to_subscription_link_content,
  from_subscription_link_content,
}
use v2ray_operator.V2fly.Links.RoundTrip.{SameLinks, from-to_subscription_link_content}
use v2ray_operator.V2fly.Links.Inbound.{
  HasEntries, Complete, new_shared_link_from_inbound_lem, from-to_inbound_link,
}
use v2ray_operator.Tests.Codec.{codec, codec-CodecLaws}

abbrev links : List (SharedLink String)
links = (("v", "2") ∷ ("ps", "US-01") ∷ ("id", "6ee5") ∷ []) ∷ (("ps", "two\nlines") ∷ []) ∷ []

from-to_subscription_link_content_example :
    (content : String) × (backs : List (SharedLink String)) × (to_subscription_link_content codec
        links
      ≡ done content)
    × (from_subscription_link_content codec content ≡ ok backs)
    × SameLinks links backs
from-to_subscription_link_content_example =
    from-to_subscription_link_content codec codec-CodecLaws links
      ((λ key v found. (v, refl)), ((λ key v found. (v, refl)), tt))

abbrev someone : V2rayInboundSettingsClientConfig
someone = record { id = "6ee5"; level = pos 0; alter_id = pos 0; email = "kim@example.org" }

abbrev settings : V2rayInboundSettingsConfig
settings = record { address = none; clients = someone ∷ []; decryption = "none"; fallbacks = [] }

abbrev ws : V2rayInboundStreamSettingsWsSettingsConfig
ws = record {
  accept_proxy_protocol = false;
  path = "/vmess";
  max_early_data = pos 0;
  use_browser_forwarding = false;
  early_data_header_name = "";
}

abbrev stream : V2rayInboundStreamSettingsConfig
stream = record { network = "ws"; security = "none"; ws_settings = some ws; sockopt = none }

abbrev inbound : V2rayInboundConfig
inbound = record {
  tag = "ws+vmess";
  port = pos 10087;
  protocol = "vmess";
  settings = some settings;
  stream_settings = some stream;
  listen = "";
}

abbrev complete : Complete inbound
complete = record {
  settings = settings;
  client = someone;
  others = [];
  stream = stream;
  ws = ws;
  is_vmess = refl;
  has_settings = refl;
  has_clients = refl;
  has_stream = refl;
  has_ws_settings = refl;
}

from-to_inbound_link_example :
    (link : SharedLink String) × (content : String) × (back : SharedLink String)
    × (new_shared_link_from_inbound codec inbound ≡ done link)
    × (to_subscription_link_content codec (link ∷ []) ≡ done content)
    × (from_subscription_link_content codec content ≡ ok (back ∷ []))
    × HasEntries codec inbound someone stream ws back
from-to_inbound_link_example = from-to_inbound_link codec codec-CodecLaws inbound complete

-- Without clients there is no link but a panic.
abbrev unused : V2rayInboundConfig
unused = record inbound { settings = some (record settings { clients = [] }) }

new_shared_link_from_inbound_lem_example :
    (is_done (new_shared_link_from_inbound codec unused) ≡ false)
    × (panics (new_shared_link_from_inbound codec unused) ≡ true)
new_shared_link_from_inbound_lem_example = new_shared_link_from_inbound_lem codec unused
