-- ===== src/V2fly/Structs.antt =====
-- internal/managers/v2fly/structs.go: the configuration of a v2ray instance. A pointer is an
-- `Option`, and `int` stands for the integer that it holds.
use v2ray_operator.Prelude.{String, Bool, Option, List}
use v2ray_operator.Prelude.Int.{ℤ}
use v2ray_operator.Prelude.Maps.{Dict}

pub record V2rayLogConfig : Type 0 where
  pub loglevel : String
  pub access : String
  pub error : String

pub record V2rayInboundSettingsClientConfig : Type 0 where
  pub id : String
  pub level : ℤ
  pub alter_id : ℤ
  pub email : String

pub record V2rayInboundSettingsFallbackConfig : Type 0 where
  pub dest : String
  pub path : String

pub record V2rayInboundSettingsConfig : Type 0 where
  pub address : Option String
  pub clients : List V2rayInboundSettingsClientConfig
  pub decryption : String
  pub fallbacks : List V2rayInboundSettingsFallbackConfig

pub record V2rayInboundStreamSettingsWsSettingsConfig : Type 0 where
  pub accept_proxy_protocol : Bool
  pub path : String
  pub max_early_data : ℤ
  pub use_browser_forwarding : Bool
  pub early_data_header_name : String

pub record V2rayInboundStreamSettingsSockoptConfig : Type 0 where
  pub mark : ℤ
  pub tcp_fast_open : Bool
  pub tcp_fast_open_queue_length : ℤ
  pub tproxy : String
  pub tcp_keep_alive_interval : ℤ

pub record V2rayInboundStreamSettingsConfig : Type 0 where
  pub network : String
  pub security : String
  pub ws_settings : Option V2rayInboundStreamSettingsWsSettingsConfig
  pub sockopt : Option V2rayInboundStreamSettingsSockoptConfig

pub record V2rayInboundConfig : Type 0 where
  pub tag : String
  pub port : ℤ
  pub protocol : String
  pub settings : Option V2rayInboundSettingsConfig
  pub stream_settings : Option V2rayInboundStreamSettingsConfig
  pub listen : String

pub record V2rayOutboundSettingsVnextUserConfig : Type 0 where
  pub id : String
  pub encryption : String
  pub alter_id : ℤ
  pub security : String
  pub level : ℤ

pub record V2rayOutboundSettingsVnextConfig : Type 0 where
  pub address : String
  pub port : ℤ
  pub users : List V2rayOutboundSettingsVnextUserConfig

pub record V2rayOutboundSettingsConfig : Type 0 where
  pub domain_strategy : String
  pub redirect : String
  pub user_level : ℤ
  pub vnext : List V2rayOutboundSettingsVnextConfig
  pub inbound_tag : String

pub record V2rayOutboundConfig : Type 0 where
  pub tag : String
  pub protocol : String
  pub settings : Option V2rayOutboundSettingsConfig

pub data V2rayStatsConfig : Type 0 where
  stats : V2rayStatsConfig

pub record V2rayPolicyLevelsConfig : Type 0 where
  pub handshake : ℤ
  pub conn_idle : ℤ
  pub uplink_only : ℤ
  pub downlink_only : ℤ
  pub stats_user_uplink : Bool
  pub stats_user_downlink : Bool
  pub buffer_size : ℤ

pub record V2rayPolicySystemConfig : Type 0 where
  pub stats_inbound_uplink : Option Bool
  pub stats_inbound_downlink : Option Bool
  pub stats_outbound_uplink : Option Bool
  pub stats_outbound_downlink : Option Bool

pub record V2rayPolicyConfig : Type 0 where
  pub levels : Dict V2rayPolicyLevelsConfig
  pub system : Option V2rayPolicySystemConfig

pub record V2rayApiConfig : Type 0 where
  pub tag : String
  pub services : List String

pub data V2rayTransportTlsSettingsConfig : Type 0 where
  tls_settings : V2rayTransportTlsSettingsConfig

pub record V2rayTransportWsSettingsConfig : Type 0 where
  pub accept_proxy_protocol : Bool
  pub path : String
  pub max_early_data : ℤ
  pub use_browser_forwarding : Bool
  pub early_data_header_name : String

pub record V2rayTransportSockoptConfig : Type 0 where
  pub mark : ℤ
  pub tcp_fast_open : Bool
  pub tcp_fast_open_queue_length : ℤ
  pub tproxy : String
  pub tcp_keep_alive_interval : ℤ

pub record V2rayTransportConfig : Type 0 where
  pub tls_settings : Option V2rayTransportTlsSettingsConfig
  pub ws_settings : Option V2rayTransportWsSettingsConfig
  pub sockopt : Option V2rayTransportSockoptConfig

pub record V2rayRoutingRulesSettingsRulesConfig : Type 0 where
  pub inbound_tag : List String
  pub outbound_tag : String
  pub rule_type : String

pub record V2rayRoutingRulesSettingsConfig : Type 0 where
  pub rules : List V2rayRoutingRulesSettingsRulesConfig

pub record V2rayRoutingRulesConfig : Type 0 where
  pub settings : Option V2rayRoutingRulesSettingsConfig
  pub strategy : String

pub record V2rayInstanceConfig : Type 0 where
  pub log : V2rayLogConfig
  pub inbounds : List V2rayInboundConfig
  pub outbounds : List V2rayOutboundConfig
  pub transport : Option V2rayTransportConfig
  pub policy : Option V2rayPolicyConfig
  pub api : Option V2rayApiConfig
  pub stats : Option V2rayStatsConfig
  pub routing : Option V2rayRoutingRulesConfig
