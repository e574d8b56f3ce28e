-- ===== src/V2fly/Links.antt =====
-- Shared links and subscriptions: internal/managers/v2fly/utils.go, and the links of structs.go.
-- A text stands for its bytes.
pub mod RoundTrip
pub mod Inbound
use v2ray_operator.Prelude.{String, ◌<>◌, Option, none, some, List, [], ◌∷◌, ◌==◌, if◌then◌else◌}
use v2ray_operator.Prelude.Int.{ℤ}
use v2ray_operator.Prelude.Maps.{Dict, insert}
use v2ray_operator.Prelude.Text.{cut_prefix, split, itoa}
use v2ray_operator.V2fly.Structs.{
  V2rayInboundSettingsClientConfig, V2rayInboundSettingsConfig, V2rayInboundStreamSettingsConfig,
  V2rayInboundStreamSettingsWsSettingsConfig, V2rayInboundConfig,
}
use v2ray_operator.V2fly.Grpc.{error_of}
use v2ray_operator.Cluster.Effect.{Error, Reply, ok, err, wrap, Outcome, done, failed, panicked}

-- The encodings that the source takes from elsewhere, over the values that a map of `any` holds:
-- `base64.StdEncoding`, an encoder of JSON, which ends its output with a line break, and its
-- counterpart. `text` makes a value of a text.
pub record Codec (V : Type 0) : Type 0 where
  pub text : String → V
  pub base64_encode : String → String
  pub base64_decode : String → Reply String
  pub json_encode : Dict V → Reply String
  pub json_decode : String → Reply (Dict V)

-- `V2rayNSharedLink`
abbrev pub SharedLink : Type 0 → Type 0
SharedLink V = Dict V

abbrev pub nil_pointer : String
nil_pointer = "invalid memory address or nil pointer dereference"

-- Going on with a value; an error or a panic ends the function.
abbrev pub and_then {ℓ} : {A B : Type ℓ} → Outcome A → (A → Outcome B) → Outcome B
and_then (done a) f = f a
and_then (failed e) f = failed e
and_then (panicked m) f = panicked m

-- What a pointer points to.
abbrev pub deref {ℓ} : {A : Type ℓ} → Option A → Outcome A
deref none = panicked nil_pointer
deref (some a) = done a

abbrev pub first_client :
    List V2rayInboundSettingsClientConfig → Outcome V2rayInboundSettingsClientConfig
first_client [] = panicked "index out of range [0] with length 0"
first_client (c ∷ cs) = done c

abbrev pub default_domain : String
default_domain = "external.hdcjh.xyz"

module _ {V : Type 0} (c : Codec V) where
  -- The assignments to the map, once everything that they read is there.
  unfoldable pub vmess_link :
      V2rayInboundConfig
      → V2rayInboundSettingsClientConfig
      → V2rayInboundStreamSettingsConfig
      → V2rayInboundStreamSettingsWsSettingsConfig
      → SharedLink V
  vmess_link cfg client stream ws = insert "sni" (c.text default_domain) (
      insert "tls" (c.text "tls") (
        insert "path" (c.text ws.path) (
          insert "type" (c.text stream.security) (
            insert "net" (c.text stream.network) (
              insert "aid" (c.text (itoa client.alter_id)) (
                insert "id" (c.text client.id) (
                  insert "port" (c.text (itoa cfg.port)) (
                    insert "add" (c.text default_domain)
                      (insert "ps" (c.text cfg.tag) (insert "v" (c.text "2") []))))))))))

  unfoldable pub new_shared_link_from_inbound : V2rayInboundConfig → Outcome (SharedLink V)
  new_shared_link_from_inbound cfg =
      if cfg.protocol == "vmess"
      then and_then (deref cfg.settings) (λ settings.
        and_then (first_client settings.clients) (λ client.
          and_then (deref cfg.stream_settings) (λ stream.
            and_then (deref stream.ws_settings) (λ ws. done (vmess_link cfg client stream ws)))))
      else failed
          (error_of ("NewV2rayNSharedLinkFromV2rayInbound: unsupported protocol " <> cfg.protocol))

  unfoldable pub to_json : SharedLink V → Outcome String
  to_json link = elim (c.json_encode link) [
    | ok json ↦ done json
    | err e ↦ panicked "V2rayNSharedLink.ToJson marshal failed"
  ]

  unfoldable pub to_link : SharedLink V → Outcome String
  to_link link = elim (c.json_encode link) [
    | ok json ↦ done ("vmess://" <> c.base64_encode json)
    | err e ↦ panicked "V2rayNSharedLink.ToLink marshal failed"
  ]

  unfoldable pub unmarshal_link : Reply String → Reply (SharedLink V)
  unmarshal_link (err e) = err (wrap "NewV2rayNSharedLinkFromLink: decode link failed" e)
  unmarshal_link (ok json) = elim (c.json_decode json) [
    | ok link ↦ ok link
    | err e ↦ err (wrap "NewV2rayNSharedLinkFromLink: unmarshal link failed" e)
  ]

  unfoldable pub new_shared_link_from_link : String → Reply (SharedLink V)
  unfolding unmarshal_link
  new_shared_link_from_link link = elim (cut_prefix link "vmess://") [
    | none ↦ err (error_of "NewV2rayNSharedLinkFromLink: invalid link format")
    | some rest ↦ unmarshal_link (c.base64_decode rest)
  ]

  -- The loop that writes to the builder.
  unfoldable pub write_links : String → List (SharedLink V) → Outcome String
  write_links written [] = done written
  write_links written (link ∷ links) =
      and_then (to_link link) (λ line. write_links ((written <> line) <> "\n") links)

  unfoldable pub to_subscription_link_content : List (SharedLink V) → Outcome String
  to_subscription_link_content links =
      and_then (write_links "" links) (λ content. done (c.base64_encode content))

  -- The loop over the lines; one that is empty is passed over.
  unfoldable pub read_lines : List String → Reply (List (SharedLink V))
  read_lines [] = ok []
  read_lines (line ∷ lines) =
      let rest = read_lines lines in
      let here : Reply (List (SharedLink V)) = elim (new_shared_link_from_link line) [
        | err e ↦ err (wrap "FromV2rayNSubscriptionLinkContent: decode line failed" e)
        | ok link ↦ elim rest [ ok links ↦ ok (link ∷ links) | err e ↦ err e ]
      ] in
      if line == "" then rest else here

  unfoldable pub from_subscription_link_content : String → Reply (List (SharedLink V))
  from_subscription_link_content content = elim (c.base64_decode content) [
    | err e ↦ err (wrap "FromV2rayNSubscriptionLinkContent: decode content failed" e)
    | ok plain ↦ read_lines (split b'\n' plain)
  ]
