-- ===== src/Copies/V2rayInstanceConfig.antt =====
-- The copies of `V2rayInstanceConfig`, written by hand in internal/managers/v2fly/structs.go.
use v2ray_operator.Prelude.{Option, List, refl}
use v2ray_operator.Copies.Heap.{◌>>=◌, M, Ref, pure, new_copy, copy_slice}
use v2ray_operator.Copies.Heap.Deep.{View, Deep}
use v2ray_operator.Copies.Heap.Slices.{both, view_slice, Deep-slice}
use v2ray_operator.Copies.Heap.Fields.{Deep-two}
use v2ray_operator.Copies.Structs.{V2rayInboundConfig, V2rayOutboundConfig, V2rayInstanceConfig}
use v2ray_operator.Copies.Cells.{Foreign, Cell}
use v2ray_operator.Copies.Cells.Clients.{inbounds_cell, outbounds_cell, config_cell}

abbrev pub Value : Type 0
Value = V2rayInstanceConfig (Option (List V2rayInboundConfig)) (Option (List V2rayOutboundConfig))

module _ {F : Foreign} where
  unfoldable pub deep_copy_into :
      V2rayInstanceConfig Ref Ref → M (Cell F) (V2rayInstanceConfig Ref Ref)
  unfolding copy_slice
  deep_copy_into config = do
    inbounds ← copy_slice V2rayInboundConfig config.inbounds
    outbounds ← copy_slice V2rayOutboundConfig config.outbounds
    pure (record config {
      log = config.log;
      inbounds = inbounds;
      outbounds = outbounds;
      transport = config.transport;
      policy = config.policy;
      api = config.api;
      stats = config.stats;
      routing = config.routing;
    })

  unfoldable pub deep_copy : Ref → M (Cell F) Ref
  unfolding new_copy deep_copy_into
  deep_copy p = new_copy {X = V2rayInstanceConfig Ref Ref} deep_copy_into p

  abbrev pub view : View (Cell F) (V2rayInstanceConfig Ref Ref) Value
  view h config =
      both
        (λ inbounds outbounds. record {
          log = config.log;
          inbounds = inbounds;
          outbounds = outbounds;
          transport = config.transport;
          policy = config.policy;
          api = config.api;
          stats = config.stats;
          routing = config.routing;
        })
        (view_slice V2rayInboundConfig h config.inbounds)
        (view_slice V2rayOutboundConfig h config.outbounds)

  pub Deep-deep_copy_into : Deep view deep_copy_into
  unfolding deep_copy_into
  Deep-deep_copy_into =
      Deep-two (Deep-slice V2rayInboundConfig) (Deep-slice V2rayOutboundConfig)
        (λ config. config.inbounds) (λ config. config.outbounds)
        (λ config inbounds outbounds. record config { inbounds = inbounds; outbounds = outbounds })
        (λ config inbounds outbounds. record {
          log = config.log;
          inbounds = inbounds;
          outbounds = outbounds;
          transport = config.transport;
          policy = config.policy;
          api = config.api;
          stats = config.stats;
          routing = config.routing;
        })
        (λ h config inbounds outbounds. refl)
