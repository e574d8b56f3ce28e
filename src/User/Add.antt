-- ===== src/User/Add.antt =====
-- `addUserToV2raySvcList`: registers the user at the elected services and notes their nodes.
pub mod Atomic
pub mod Fine
pub mod Regions
pub mod Nodes
pub mod Succeeds
use v2ray_operator.Prelude.{String, ◌<>◌, false, Option, none, some, List, [], ◌∷◌, ◌++◌}
use v2ray_operator.Prelude.Int.{pos}
use v2ray_operator.Prelude.Maps.{Dict, lookup, insert, text_at}
use v2ray_operator.Api.Core.{Service, Pod, Node}
use v2ray_operator.Api.User.{V2rayNodeInfo, V2rayNodeList, V2rayUser}
use v2ray_operator.V2fly.Grpc.{alter_inbound, error_of, labelled}
use v2ray_operator.Cluster.Effect.{
  M, Error, Reply, ok, err, wrap, Outcome, done, failed, panicked, pure, fail, panic, attempt,
  ◌>>=◌, ◌>>◌,
}
use v2ray_operator.Cluster.Requests.{Account, ProtocolUser, add_user, remove_user, History}
use v2ray_operator.Cluster.Env.{Env}
use v2ray_operator.Cluster.Client
use v2ray_operator.User.Server.{
  v2ray_region_label, account_of, protocol_user, get_v2ray_grpc_client_from_svc, get_node_public_ip,
}
use v2ray_operator.User.Rollback.{serve_each, Served, deferred}

abbrev pub NodeMap : Type 0
NodeMap = Dict V2rayNodeList

abbrev pub region_of : Service → String
region_of svc = text_at v2ray_region_label svc.metadata.labels

abbrev pub new_node_list : V2rayNodeList
new_node_list = record { size = pos 0; virgin_ip = false; info = [] }

abbrev pub list_or_new : Option V2rayNodeList → V2rayNodeList
list_or_new none = new_node_list
list_or_new (some nl) = nl

abbrev pub extended : V2rayNodeInfo → V2rayNodeList → V2rayNodeList
extended info nl = record nl { info = nl.info ++ info ∷ [] }

-- `nodeList[region]`, made where it is missing, gets one more entry.
unfoldable pub note_node : String → V2rayNodeInfo → NodeMap → NodeMap
note_node region info nodes =
    insert region (extended info (list_or_new (lookup region nodes))) nodes

unfoldable pub node_info : Service → Pod → Node → V2rayNodeInfo
node_info svc pod node = record {
  name = pod.node_name;
  ip = get_node_public_ip node;
  port = pos 443;
  domain = "";
  svc_name = svc.metadata.name;
}

-- `xs[0]`, after the test for an empty list.
unfoldable pub first_or {ℓ} : {A : Type ℓ} → String → List A → M A
first_or text [] = fail (error_of text)
first_or text (x ∷ xs) = pure x

-- `dep.Items[0].Spec.Selector.MatchLabels`: the selector is a pointer, and is not tested.
unfoldable pub selected : Option (Dict String) → M (Dict String)
selected none = panic "invalid memory address or nil pointer dereference"
selected (some labels) = pure labels

-- What `addUserToV2raySvcList` leaves: its error, and the user object that it changed.
pub record Added : Type 0 where
  pub error : Option Error
  pub user : V2rayUser

module _ (E : Env) where
  -- The node that serves a service: service, deployment, pod, node.
  unfoldable pub find_node : Service → M V2rayNodeInfo
  find_node svc = do
    deps ← Client.list_deployments E svc.metadata.namespace svc.selector
    dep ← first_or "no matched deployment found" deps
    labels ← selected dep.match_labels
    pods ← Client.list_pods E dep.metadata.namespace labels
    pod ← first_or "failed to get pod" pods
    node ← Client.get_node E (record { namespace = pod.metadata.namespace; name = pod.node_name })
    pure (node_info svc pod node)

  -- One round of the loop.
  unfoldable pub add_to_svc : String → ProtocolUser → Service → NodeMap → M (Service × NodeMap)
  add_to_svc tag user svc nodes = do
    cli ←
        labelled "AddUserToV2raySvcList: failed to get v2ray grpc client"
          (get_v2ray_grpc_client_from_svc E svc)
    labelled "AddUserToV2raySvcList: failed to add user to v2ray client config"
        (alter_inbound E cli tag (add_user user))
    info ← find_node svc
    pure (svc, note_node (region_of svc) info nodes)

  abbrev pub with_nodes : V2rayUser → NodeMap → V2rayUser
  with_nodes cr nodes = record cr { spec = record cr.spec { node_list = nodes } }

  unfoldable pub stored : List Service → Outcome (Reply V2rayUser) × History → Served V2rayUser
  stored served (done (ok cr), h) = (done cr, served, h)
  stored served (done (err e), h) =
      (failed (wrap "addUserToV2raySvcList: failed to update v2ray user nodeList" e), served, h)
  stored served (failed e, h) = (failed e, served, h)
  stored served (panicked p, h) = (panicked p, served, h)

  -- The update of the resource after the loop; where it fails the loop counts as failed.
  unfoldable pub store_nodes : V2rayUser → Served NodeMap → Served V2rayUser
  unfolding stored
  store_nodes cr (done nodes, served, h) =
      stored served (attempt (Client.update_user E (with_nodes cr nodes)) h)
  store_nodes cr (failed e, served, h) = (failed e, served, h)
  store_nodes cr (panicked p, served, h) = (panicked p, served, h)

  -- The resource in memory after the loop: it holds the new nodes, stored or not.
  unfoldable pub left_user : V2rayUser → Outcome NodeMap → V2rayUser
  left_user cr (done nodes) = with_nodes cr nodes
  left_user cr (failed e) = cr
  left_user cr (panicked p) = cr

  unfoldable pub finish : V2rayUser → Outcome V2rayUser × History → Outcome Added × History
  finish left (done stored, h) = (done (record { error = none; user = stored }), h)
  finish left (failed e, h) = (done (record { error = some e; user = left }), h)
  finish left (panicked p, h) = (panicked p, h)

  -- The part after the switch over the inbound tag.
  unfoldable pub add_account : V2rayUser → Account → List Service → M Added
  add_account cr account svcs h =
      let tag = cr.spec.inbound_tag in
      let looped = serve_each (add_to_svc tag (protocol_user cr.spec.user account)) svcs [] [] h in
      finish (left_user cr looped.0)
        (deferred E tag (remove_user cr.spec.user.email) (store_nodes cr looped))

  unfoldable pub add_user_to_v2ray_svc_list : V2rayUser → List Service → M Added
  add_user_to_v2ray_svc_list cr svcs = elim (account_of cr.spec.inbound_tag cr.spec.user) [
    | none ↦ pure (record {
      error =
          some
            (error_of ("AddUserToV2raySvcList: unsupported inbound tag " <> cr.spec.inbound_tag));
      user = cr;
    })
    | some account ↦ add_account cr account svcs
  ]
