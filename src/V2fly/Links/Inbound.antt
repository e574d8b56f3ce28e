-- ===== src/V2fly/Links/Inbound.antt =====
-- The link of an inbound: when there is one, and what a client reads from it.
use v2ray_operator.Prelude.{
  String, Bool, true, false, Option, none, some, List, [], ◌∷◌, ◌==◌, ◌≡◌, refl, ap, sym, ◌∙◌,
  arith, if◌then◌else◌, Bool-cases, inl, inr, ◌&&◌,
}
use v2ray_operator.Prelude.Maps.{lookup, insert, lookup-insert}
use v2ray_operator.Prelude.Text.{itoa}
use v2ray_operator.V2fly.Structs.{
  V2rayInboundSettingsClientConfig, V2rayInboundSettingsConfig, V2rayInboundStreamSettingsConfig,
  V2rayInboundStreamSettingsWsSettingsConfig, V2rayInboundConfig,
}
use v2ray_operator.V2fly.Links.{
  Codec, SharedLink, vmess_link, new_shared_link_from_inbound, default_domain,
  to_subscription_link_content, from_subscription_link_content,
}
use v2ray_operator.V2fly.Links.RoundTrip.{
  CodecLaws, Textual, SameEntries, SameLinks, from-to_subscription_link_content,
}
use v2ray_operator.Cluster.Trace.{panics, is_done}
use v2ray_operator.Cluster.Effect.{ok, done}

-- The settings have a client, and the stream settings have settings for web sockets.
abbrev pub has_client : Option V2rayInboundSettingsConfig → Bool
has_client none = false
has_client (some settings) = elim settings.clients [ [] ↦ false | c ∷ cs ↦ true ]

abbrev pub has_ws : Option V2rayInboundStreamSettingsConfig → Bool
has_ws none = false
has_ws (some stream) = elim stream.ws_settings [ none ↦ false | some ws ↦ true ]

-- A link can be made of an inbound exactly if it has the protocol vmess, settings with a client, and
-- stream settings with settings for web sockets. With vmess and one of the others missing there is a
-- panic, and with another protocol there is none.
pub new_shared_link_from_inbound_lem :
    {V : Type 0} (c : Codec V) (cfg : V2rayInboundConfig)
    → let complete = has_client cfg.settings && has_ws cfg.stream_settings in
      (is_done (new_shared_link_from_inbound c cfg)
        ≡ (if cfg.protocol == "vmess" then complete else false))
      × (panics (new_shared_link_from_inbound c cfg)
          ≡ (if cfg.protocol == "vmess" then (if complete then false else true) else false))
unfolding new_shared_link_from_inbound
new_shared_link_from_inbound_lem c cfg = (ground arith, ground arith)

module _ {V : Type 0} (c : Codec V) where
  insert-Textual :
      (k s : String) (l : SharedLink V) → Textual c l → Textual c (insert k (c.text s) l)
  insert-Textual k s l textual key v found =
      let read : (if k == key then some (c.text s) else lookup key l) ≡ some v =
        sym (lookup-insert k key (c.text s) l) ∙ found in
      elim (Bool-cases (k == key)) [
        | inl same ↦ (s, cc (rw same at read))
        | inr other ↦ textual key v (rw other at read)
      ]

  empty-Textual : Textual c []
  unfolding lookup
  empty-Textual key v found = cc

  vmess_link-Textual :
      (cfg : V2rayInboundConfig) (client : V2rayInboundSettingsClientConfig)
      (stream : V2rayInboundStreamSettingsConfig) (ws : V2rayInboundStreamSettingsWsSettingsConfig)
      → Textual c (vmess_link c cfg client stream ws)
  unfolding vmess_link
  vmess_link-Textual cfg client stream ws = insert-Textual _ _ _ (
      insert-Textual _ _ _ (
        insert-Textual _ _ _ (
          insert-Textual _ _ _ (
            insert-Textual _ _ _ (
              insert-Textual _ _ _ (
                insert-Textual _ _ _ (
                  insert-Textual _ _ _ (
                    insert-Textual _ _ _
                      (insert-Textual _ _ _ (insert-Textual _ _ _ empty-Textual))))))))))

-- The entries that a client connects by: where to, as whom, and over what.
abbrev pub HasEntries :
    {V : Type 0}
    → Codec V
    → V2rayInboundConfig
    → V2rayInboundSettingsClientConfig
    → V2rayInboundStreamSettingsConfig
    → V2rayInboundStreamSettingsWsSettingsConfig
    → SharedLink V
    → Type 0
HasEntries c cfg client stream ws link =
    (lookup "ps" link ≡ some (c.text cfg.tag))
    × (lookup "add" link ≡ some (c.text default_domain))
    × (lookup "port" link ≡ some (c.text (itoa cfg.port)))
    × (lookup "id" link ≡ some (c.text client.id))
    × (lookup "aid" link ≡ some (c.text (itoa client.alter_id)))
    × (lookup "net" link ≡ some (c.text stream.network))
    × (lookup "type" link ≡ some (c.text stream.security))
    × (lookup "path" link ≡ some (c.text ws.path))

vmess_link-HasEntries :
    {V : Type 0} (c : Codec V) (cfg : V2rayInboundConfig)
    (client : V2rayInboundSettingsClientConfig) (stream : V2rayInboundStreamSettingsConfig)
    (ws : V2rayInboundStreamSettingsWsSettingsConfig)
    → HasEntries c cfg client stream ws (vmess_link c cfg client stream ws)
unfolding vmess_link insert lookup
vmess_link-HasEntries c cfg client stream ws = (refl, refl, refl, refl, refl, refl, refl, refl)

-- The settings that a link is made of.
pub record Complete (cfg : V2rayInboundConfig) : Type 0 where
  pub settings : V2rayInboundSettingsConfig
  pub client : V2rayInboundSettingsClientConfig
  pub others : List V2rayInboundSettingsClientConfig
  pub stream : V2rayInboundStreamSettingsConfig
  pub ws : V2rayInboundStreamSettingsWsSettingsConfig
  pub is_vmess : cfg.protocol == "vmess" ≡ true
  pub has_settings : cfg.settings ≡ some settings
  pub has_clients : settings.clients ≡ client ∷ others
  pub has_stream : cfg.stream_settings ≡ some stream
  pub has_ws_settings : stream.ws_settings ≡ some ws

new_link-Complete :
    {V : Type 0} (c : Codec V) (cfg : V2rayInboundConfig) (parts : Complete cfg)
    → new_shared_link_from_inbound c cfg
      ≡ done (vmess_link c cfg parts.client parts.stream parts.ws)
unfolding new_shared_link_from_inbound
new_link-Complete c cfg parts =
    rw
      (
        parts.is_vmess, parts.has_settings, parts.has_clients, parts.has_stream,
        parts.has_ws_settings, new_shared_link_from_inbound,
      )
      refl

HasEntries-same :
    {V : Type 0} (c : Codec V) (cfg : V2rayInboundConfig)
    (client : V2rayInboundSettingsClientConfig) (stream : V2rayInboundStreamSettingsConfig)
    (ws : V2rayInboundStreamSettingsWsSettingsConfig) (link back : SharedLink V)
    → SameEntries link back
    → HasEntries c cfg client stream ws link
    → HasEntries c cfg client stream ws back
HasEntries-same c cfg client stream ws link back same (a, b, d, e, f, g, h, i) = (
  sym (same "ps") ∙ a,
  sym (same "add") ∙ b,
  sym (same "port") ∙ d,
  sym (same "id") ∙ e,
  sym (same "aid") ∙ f,
  sym (same "net") ∙ g,
  sym (same "type") ∙ h,
  sym (same "path") ∙ i,
)

only_link :
    {V : Type 0} (link : SharedLink V) (backs : List (SharedLink V))
    → SameLinks (link ∷ []) backs
    → (back : SharedLink V) × (backs ≡ back ∷ []) × SameEntries link back
only_link link [] same = absurd same
only_link link (back ∷ backs) (same, none_left) = (back, rw none_left refl, same)

-- Where the encodings keep their promises, the link of an inbound with the protocol vmess and the
-- settings that it needs goes through a subscription: what is read back is one link, with the tag,
-- the port, the path, the network and the security of the inbound, the id and the alter id of its
-- first client, and the operator's own domain as the address.
pub from-to_inbound_link :
    {V : Type 0} (c : Codec V)
    → CodecLaws c
    → (cfg : V2rayInboundConfig) (parts : Complete cfg)
    → (link : SharedLink V) × (content : String) × (back : SharedLink V)
      × (new_shared_link_from_inbound c cfg ≡ done link)
      × (to_subscription_link_content c (link ∷ []) ≡ done content)
      × (from_subscription_link_content c content ≡ ok (back ∷ []))
      × HasEntries c cfg parts.client parts.stream parts.ws back
from-to_inbound_link c laws cfg parts =
    let link : SharedLink _ = vmess_link c cfg parts.client parts.stream parts.ws in
    let (content, backs, written, read, same) =
      from-to_subscription_link_content c laws (link ∷ [])
        (vmess_link-Textual c cfg parts.client parts.stream parts.ws, tt) in
    let (back, only, entries) = only_link link backs same in
    (
      link,
      content,
      back,
      new_link-Complete c cfg parts,
      written,
      read ∙ ap ok only,
      HasEntries-same c cfg parts.client parts.stream parts.ws link back entries
          (vmess_link-HasEntries c cfg parts.client parts.stream parts.ws),
    )
