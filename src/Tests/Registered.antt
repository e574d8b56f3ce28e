-- ===== src/Tests/Registered.antt =====
-- A user whom the servers hold, and hold no longer.
use v2ray_operator.Prelude.{
  String, true, false, none, List, [], ◌∷◌, map, ◌≡◌, refl, ap, Bool-cases, inl, inr,
}
use v2ray_operator.Prelude.Maps.{Dict, lookup, insert, text_at}
use v2ray_operator.Prelude.Text.{itoa, to_lower, contains}
use v2ray_operator.V2fly.Config.{server_addr}
use v2ray_operator.V2fly.Grpc.{labelled, alter_inbound, new_v2ray_grpc_api}
use v2ray_operator.Cluster.Client.{record_event}
use v2ray_operator.Cluster.Effect.{Outcome, done, ◌>>=◌}
use v2ray_operator.Cluster.Requests.{History}
use v2ray_operator.Managers.{env, grpc_port}
use v2ray_operator.User.Server.{
  account_of, protocol_user, svc_addr, svc_config, get_v2ray_grpc_client_from_svc,
  get_node_public_ip,
}
use v2ray_operator.User.Rollback.{serve_each, deferred}
use v2ray_operator.User.Add.{
  note_node, node_info, first_or, selected, find_node, add_to_svc, store_nodes, left_user, finish,
  add_account, add_user_to_v2ray_svc_list,
}
use v2ray_operator.User.Finalize.{
  infos_of, remove_from_svc, announce, remove_account, do_finalizer_operations_for_v2ray_user,
}
use v2ray_operator.User.Finalize.Atomic.{StableServices}
use v2ray_operator.User.Registered.{registered, Honest}
use v2ray_operator.User.Registered.Ends.{add_user-registered, finalizer-unregistered}
use v2ray_operator.User.Registered.Reaches.{Alike, KeepsUsers, finalizer-undoes_registration}
use v2ray_operator.User.Add.Regions.{svc_name_of, names_at}
use v2ray_operator.Api.User.{V2rayNodeInfo, V2rayNodeList}
use mathlib.Core.Path.{subst}
use v2ray_operator.Tests.World.{world, alpha, beta, gamma, find, user}
use v2ray_operator.Tests.Deletion
use v2ray_operator.Tests.Users
use v2ray_operator.User.Rollback.{rollback, undo_at}
use v2ray_operator.User.Rollback.Ended.{RolledBack}
use v2ray_operator.User.Add.{Added}
use v2ray_operator.User.Registered.Rollback.{
  AcceptsRemovals, AllUnregistered, failed_registration-unregisters,
}
use v2ray_operator.Cluster.Effect.{Reply, ok, err, wrap}
use v2ray_operator.Cluster.Requests.{vless, add_user, remove_user}
use v2ray_operator.Cluster.Env.{Env}
use v2ray_operator.Cluster.Trace.{alters}
use v2ray_operator.Prelude.{some, ◌==◌, if◌then◌else◌}
use v2ray_operator.Prelude.Text.{has_prefix}
use v2ray_operator.Tests.World.{ok_eq, refused, value}
use v2ray_operator.Tests.Users.{asked, elected, run, added, known, run_fine}

abbrev email : String
email = "kim@example.org"

pub world-Honest : Honest world false (svc_addr world beta) "ws+vless" email
world-Honest h a t u e answer exists same = cc

world-StableServices : StableServices world find
world-StableServices h name svc found = cc

add_user-registered_example :
    registered world false (svc_addr world beta) "ws+vless" email run.1 ≡ true
unfolding svc_addr svc_config grpc_port server_addr env to_lower itoa protocol_user
add_user-registered_example =
    add_user-registered world false (svc_addr world beta) "ws+vless" email world-Honest (user asked)
      elected [] known run_fine.0 run_fine.1

held-Honest : Honest world true (svc_addr world beta) "ws+vless" email
held-Honest h a t u e answer exists same = cc

finalizer-unregistered_example :
    registered world true (svc_addr world beta) "ws+vless" email Deletion.run.1 ≡ false
unfolding svc_addr svc_config grpc_port infos_of server_addr env to_lower itoa
finalizer-unregistered_example =
    finalizer-unregistered world true (svc_addr world beta) "ws+vless" email held-Honest find
      world-StableServices Deletion.served [] Deletion.known Deletion.run_done

-- The API server fills in the domain of a node that is sent without one.
abbrev with_domain : V2rayNodeInfo → V2rayNodeInfo
with_domain info = record info {
  domain = if info.domain == "" then "external.hdcjh.xyz" else info.domain;
}

abbrev with_domains : Dict V2rayNodeList → Dict V2rayNodeList
with_domains [] = []
with_domains ((region, nl) ∷ nodes) =
    (region, record nl { info = map with_domain nl.info }) ∷ with_domains nodes

abbrev defaulting : Env
defaulting = record world {
  update_user =
      λ h u. ok (record u { spec = record u.spec { node_list = with_domains u.spec.node_list } });
}

names-with_domain :
    (infos : List V2rayNodeInfo) → map svc_name_of (map with_domain infos) ≡ map svc_name_of infos
names-with_domain [] = refl
names-with_domain (info ∷ infos) = ap (λ l. info.svc_name ∷ l) (names-with_domain infos)

names_at-with_domains :
    (r : String) (nodes : Dict V2rayNodeList) → names_at r (with_domains nodes) ≡ names_at r nodes
unfolding lookup
names_at-with_domains r [] = refl
names_at-with_domains r ((region, nl) ∷ nodes) = elim (Bool-cases (region == r)) [
  | inl same ↦ rw same (names-with_domain nl.info)
  | inr other ↦ rw other (names_at-with_domains r nodes)
]

defaulting-KeepsUsers : KeepsUsers defaulting
defaulting-KeepsUsers h u u' account tag_known answer = subst (Alike u) (ok_eq answer) (record {
  inbound = refl;
  user = refl;
  services = λ r. names_at-with_domains r u.spec.node_list;
})

defaulting-Honest : Honest defaulting false (svc_addr defaulting beta) "ws+vless" email
defaulting-Honest h a t u e answer exists same = cc

defaulting-StableServices : StableServices defaulting find
defaulting-StableServices h name svc found = cc

abbrev filled : Outcome Added × History
filled = add_user_to_v2ray_svc_list defaulting (user asked) elected []

-- The finalizer runs right after the registration.
abbrev undone : Outcome (Unit {0}) × History
undone =
    do_finalizer_operations_for_v2ray_user defaulting (value Users.failed_add filled.0).user
      filled.1

undone_done :
    (filled ≡ (done (value Users.failed_add filled.0), filled.1))
    × ((value Users.failed_add filled.0).error ≡ none)
    × (undone ≡ (done tt, undone.1))
unfolding do_finalizer_operations_for_v2ray_user account_of contains remove_account infos_of
    serve_each remove_from_svc get_v2ray_grpc_client_from_svc svc_config env grpc_port
    new_v2ray_grpc_api alter_inbound deferred announce record_event itoa server_addr lookup to_lower
    ◌>>=◌ add_user_to_v2ray_svc_list add_account add_to_svc labelled find_node first_or selected
    node_info note_node get_node_public_ip protocol_user store_nodes left_user finish insert text_at
undone_done = (refl, refl, refl)

finalizer-undoes_registration_example :
    registered defaulting false (svc_addr defaulting beta) "ws+vless" email undone.1 ≡ false
finalizer-undoes_registration_example =
    finalizer-undoes_registration defaulting false find (user asked) (alpha ∷ []) beta (gamma ∷ [])
      [] filled.1 defaulting-Honest defaulting-StableServices refl defaulting-KeepsUsers known
      undone_done.0 undone_done.1 undone_done.2

-- The second server has no room for users, and gives up any.
abbrev full : Env
full = record world {
  alter_inbound = λ h a tag op. elim op as (λ _. Reply (Unit {0})) [
    | add_user u ↦ if a == "10.0.0.2:10085" then err refused else ok tt
    | remove_user m ↦ ok tt
  ];
}

full-AcceptsRemovals : AcceptsRemovals full
full-AcceptsRemovals h a t m = refl

abbrev failed_run : Outcome Added × History
failed_run = add_user_to_v2ray_svc_list full (user asked) elected []

failed_run_lem :
    (failed_run ≡ (done (value Users.failed_add failed_run.0), failed_run.1))
    × ((value Users.failed_add failed_run.0).error
        ≡ some (Users.halted_error (value Users.failed_add failed_run.0).error))
unfolding add_user_to_v2ray_svc_list add_account account_of contains serve_each add_to_svc labelled
    get_v2ray_grpc_client_from_svc svc_config env grpc_port new_v2ray_grpc_api alter_inbound
    find_node first_or selected node_info note_node get_node_public_ip protocol_user store_nodes
    left_user finish deferred lookup insert text_at to_lower itoa server_addr wrap rollback undo_at
    has_prefix ◌>>=◌
failed_run_lem = (refl, refl)

-- The user was registered everywhere.
failed_registration-unregisters_example :
    (r : RolledBack full "ws+vless"
      (add_user (protocol_user (user asked).spec.user (vless "0f1e")))
      (remove_user email)
      (λ svc. svc)
      elected
      []
      (alters failed_run.1))
    × AllUnregistered full true "ws+vless" email failed_run.1 r.finished
failed_registration-unregisters_example =
    failed_registration-unregisters full true full-AcceptsRemovals (user asked) elected [] known
      failed_run_lem.0 failed_run_lem.1
