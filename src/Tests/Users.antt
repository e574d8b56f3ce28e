-- ===== src/Tests/Users.antt =====
-- A user who is elected, registered and stored.
use v2ray_operator.Prelude.{Option, none, some, List, [], ◌∷◌, ◌≡◌, refl, ◌≤◌, length}
use v2ray_operator.Prelude.Int.{pos}
use v2ray_operator.Prelude.Maps.{Dict, lookup, insert, text_at}
use v2ray_operator.Prelude.Text.{itoa, to_lower, contains, has_prefix}
use v2ray_operator.Api.Core.{Service}
use v2ray_operator.Api.User.{V2rayNodeList, V2rayUser}
use v2ray_operator.V2fly.Config.{server_addr}
use v2ray_operator.V2fly.Grpc.{labelled, alter_inbound, new_v2ray_grpc_api}
use v2ray_operator.Cluster.Effect.{Error, Outcome, done, ◌>>=◌, wrap}
use v2ray_operator.Cluster.Requests.{Call, History, vless, add_user, remove_user}
use v2ray_operator.Cluster.Trace.{alters}
use v2ray_operator.Managers.{env, grpc_port}
use v2ray_operator.User.Server.{
  account_of, protocol_user, svc_config, get_v2ray_grpc_client_from_svc, get_node_public_ip,
}
use v2ray_operator.User.Elect.{
  min, slice_to, with_default_size, select, elect_region, elect_each, elect_services_from_affinity,
}
use v2ray_operator.User.Elect.Laws.{StableRegions, elect-elected, elect-length-le}
use v2ray_operator.User.Rollback.{serve_each, undo_at, rollback, deferred}
use v2ray_operator.User.Rollback.Ended.{RolledBack}
use v2ray_operator.User.Rollback.Exact.{calls_onto}
use v2ray_operator.User.Add.{
  Added, note_node, node_info, first_or, selected, find_node, add_to_svc, store_nodes, left_user,
  finish, add_account, add_user_to_v2ray_svc_list,
}
use v2ray_operator.User.Add.Succeeds.{Answers, Succeeds, add_user-Succeeds}
use v2ray_operator.User.Add.Atomic.{add_user-registers_all, add_user-rolls_back}
use v2ray_operator.User.Add.Nodes.{StoresNodes, add_user-StoresNodes}
use v2ray_operator.User.Reconcile.Resync.{OnePerRegion, resync-OnePerRegion}
use v2ray_operator.Tests.World.{
  world, deployment, pod, node, refusing, alpha, beta, gamma, services_in, user, nodes_of, info_at,
  value, missing,
}

abbrev pub asked : Dict V2rayNodeList
asked = ("US", nodes_of (pos 0) []) ∷ ("jp", nodes_of (pos 4) []) ∷ []

world_lists : StableRegions world services_in
unfolding text_at lookup
world_lists h region = refl

elect-elected_example : (elect_services_from_affinity world asked []).0 ≡ done (alpha ∷ gamma ∷ [])
unfolding to_lower
elect-elected_example = elect-elected world services_in world_lists asked [] (refl, (refl, tt))

asked_elects :
    elect_services_from_affinity world asked []
    ≡ (done (alpha ∷ gamma ∷ []), (elect_services_from_affinity world asked []).1)
unfolding elect_services_from_affinity elect_each elect_region select slice_to min with_default_size
    to_lower text_at lookup ◌>>=◌
asked_elects = refl

elect-length-le_example : length (alpha ∷ gamma ∷ []) ≤ 5
elect-length-le_example = elect-length-le world asked [] asked_elects

abbrev pub elected : List Service
elected = alpha ∷ beta ∷ gamma ∷ []

abbrev pub failed_add : Added
failed_add = record { error = some missing; user = user [] }

abbrev pub run : Outcome Added × History
run = add_user_to_v2ray_svc_list world (user asked) elected []

abbrev pub added : Added
added = value failed_add run.0

pub known : account_of "ws+vless" (user asked).spec.user ≡ some (vless "0f1e")
unfolding account_of contains
known = refl

abbrev last_stored : V2rayUser
last_stored = user (
    ("us", nodes_of (pos 0) (info_at "alpha" ∷ info_at "beta" ∷ []))
    ∷ ("jp", nodes_of (pos 0) (info_at "gamma" ∷ []))
    ∷ [])

abbrev without_last : History → History
without_last [] = []
without_last (c ∷ h) = h

pub run_fine :
    (run ≡ (done added, run.1))
    × (added.error ≡ none)
    × (run.1 ≡ Call.update_user last_stored ∷ without_last run.1)
unfolding add_user_to_v2ray_svc_list add_account account_of contains serve_each add_to_svc labelled
    get_v2ray_grpc_client_from_svc svc_config env grpc_port new_v2ray_grpc_api alter_inbound
    find_node first_or selected node_info note_node get_node_public_ip protocol_user store_nodes
    left_user finish deferred lookup insert text_at to_lower itoa server_addr ◌>>=◌
run_fine = (refl, refl, refl)

add_user-registers_all_example :
    alters run.1
    ≡ calls_onto world "ws+vless"
        (add_user (protocol_user (user asked).spec.user (vless "0f1e")))
        elected
        []
add_user-registers_all_example =
    add_user-registers_all world (user asked) elected [] known run_fine.0 run_fine.1

add_user-StoresNodes_example : StoresNodes world (user asked) elected added.user run.1
add_user-StoresNodes_example =
    add_user-StoresNodes world (user asked) elected [] known run_fine.0 run_fine.1

stored_elects : elect_services_from_affinity world last_stored.spec.node_list [] ≡ (
  done (alpha ∷ gamma ∷ []),
  (elect_services_from_affinity world last_stored.spec.node_list []).1,
)
unfolding elect_services_from_affinity elect_each elect_region select slice_to min with_default_size
    to_lower text_at lookup ◌>>=◌
stored_elects = refl

resync-OnePerRegion_example : OnePerRegion world last_stored.spec.node_list (alpha ∷ gamma ∷ [])
resync-OnePerRegion_example =
    resync-OnePerRegion world (user asked) elected [] known run_fine.0 run_fine.1 run_fine.2 []
      (alpha ∷ gamma ∷ []) (elect_services_from_affinity world last_stored.spec.node_list []).1
      stored_elects

-- The second server refuses, so the first loses the user again.
abbrev halted : Outcome Added × History
halted = add_user_to_v2ray_svc_list (refusing "10.0.0.2:10085") (user asked) elected []

abbrev pub halted_error : Option Error → Error
halted_error none = missing
halted_error (some e) = e

halted_lem :
    (halted ≡ (done (value failed_add halted.0), halted.1))
    × ((value failed_add halted.0).error ≡ some (halted_error (value failed_add halted.0).error))
unfolding add_user_to_v2ray_svc_list add_account account_of contains serve_each add_to_svc labelled
    get_v2ray_grpc_client_from_svc svc_config env grpc_port new_v2ray_grpc_api alter_inbound
    find_node first_or selected node_info note_node get_node_public_ip protocol_user store_nodes
    left_user finish deferred lookup insert text_at to_lower itoa server_addr wrap rollback undo_at
    has_prefix ◌>>=◌
halted_lem = (refl, refl)

add_user-rolls_back_example :
    RolledBack
      (refusing "10.0.0.2:10085")
      "ws+vless"
      (add_user (protocol_user (user asked).spec.user (vless "0f1e")))
      (remove_user "kim@example.org")
      (λ svc. svc)
      elected
      []
      (alters halted.1)
add_user-rolls_back_example =
    add_user-rolls_back (refusing "10.0.0.2:10085") (user asked) elected [] known halted_lem.0
      halted_lem.1

world-Answers : Answers world
world-Answers = record {
  dials = λ h addr. refl;
  alters = λ h addr tag op. refl;
  deployments = λ h ns ls. (deployment, [], [], refl, refl);
  pods = λ h ns ls. (pod, [], refl);
  nodes = λ h k. (node, refl);
  updates = λ h u. (u, refl);
}

add_user-Succeeds_example : Succeeds run.0
unfolding svc_config grpc_port
add_user-Succeeds_example =
    add_user-Succeeds world world-Answers (user asked) elected [] known (refl, (refl, (refl, tt)))
