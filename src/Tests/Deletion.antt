-- ===== src/Tests/Deletion.antt =====
-- A user who is taken off the servers.
use v2ray_operator.Prelude.{suc, zero, some, [], ◌∷◌, ◌≡◌, ◌≢◌, refl, sym, ap, ◌∙◌, length, arith}
use v2ray_operator.Prelude.Int.{pos}
use v2ray_operator.Prelude.Maps.{lookup}
use v2ray_operator.Prelude.Text.{itoa, to_lower, contains, has_prefix}
use v2ray_operator.Api.Meta.{ObjectKey}
use v2ray_operator.Api.User.{V2rayUser}
use v2ray_operator.V2fly.Config.{server_addr}
use v2ray_operator.V2fly.Grpc.{alter_inbound, new_v2ray_grpc_api}
use v2ray_operator.Cluster.Client.{record_event}
use v2ray_operator.Cluster.Effect.{Error, ok, Outcome, done, failed, panicked, ◌>>=◌, wrap}
use v2ray_operator.Cluster.Requests.{History, vless, add_user, remove_user}
use v2ray_operator.Cluster.Env.{Env}
use v2ray_operator.Cluster.Trace.{alters, user_writes}
use v2ray_operator.Managers.{env, grpc_port}
use v2ray_operator.User.Server.{
  account_of, protocol_user, svc_config, get_v2ray_grpc_client_from_svc,
}
use v2ray_operator.User.Elect.{elect_each, elect_services_from_affinity}
use v2ray_operator.User.Rollback.{serve_each, undo_at, rollback, deferred}
use v2ray_operator.User.Rollback.Ended.{RolledBack}
use v2ray_operator.User.Rollback.Exact.{calls_onto}
use v2ray_operator.User.Finalize.{
  infos_of, remove_from_svc, announce, remove_account, do_finalizer_operations_for_v2ray_user,
}
use v2ray_operator.User.Finalize.Atomic.{
  StableServices, svc_of, finalizer-removes_all, finalizer-rolls_back,
}
use v2ray_operator.User.Reconcile.{serve_user, finalizing, finalize, release, with_condition}
use v2ray_operator.User.Reconcile.Release.{finalize-releases_after_removal}
use v2ray_operator.User.Reconcile.Stuck.{EmptyOrError, serve_user-no_node}
use v2ray_operator.Tests.World.{
  world, refusing, alpha, beta, gamma, find, user, nodes_of, info_at, refused,
}

abbrev pub served : V2rayUser
served = user (
    ("us", nodes_of (pos 0) (info_at "alpha" ∷ info_at "beta" ∷ []))
    ∷ ("jp", nodes_of (pos 0) (info_at "gamma" ∷ []))
    ∷ [])

pub known : account_of "ws+vless" served.spec.user ≡ some (vless "0f1e")
unfolding account_of contains
known = refl

world-StableServices : StableServices world find
world-StableServices h name svc found = cc

abbrev pub run : Outcome (Unit {0}) × History
run = do_finalizer_operations_for_v2ray_user world served []

pub run_done : run ≡ (done tt, run.1)
unfolding do_finalizer_operations_for_v2ray_user account_of contains remove_account infos_of
    serve_each remove_from_svc get_v2ray_grpc_client_from_svc svc_config env grpc_port
    new_v2ray_grpc_api alter_inbound deferred announce record_event itoa server_addr lookup to_lower
    ◌>>=◌
run_done = refl

finalizer-removes_all_example :
    alters run.1
    ≡ calls_onto world "ws+vless" (remove_user "kim@example.org") (alpha ∷ beta ∷ gamma ∷ []) []
unfolding infos_of
finalizer-removes_all_example =
    finalizer-removes_all world find world-StableServices served [] known run_done

refusing-StableServices : StableServices (refusing "10.0.0.3:10085") find
refusing-StableServices h name svc found = cc

abbrev halted : Outcome (Unit {0}) × History
halted = do_finalizer_operations_for_v2ray_user (refusing "10.0.0.3:10085") served []

abbrev error_in : Outcome (Unit {0}) → Error
error_in (done a) = refused
error_in (failed e) = e
error_in (panicked m) = refused

halted_failed : halted ≡ (failed (error_in halted.0), halted.1)
unfolding do_finalizer_operations_for_v2ray_user account_of contains remove_account infos_of
    serve_each remove_from_svc get_v2ray_grpc_client_from_svc svc_config env grpc_port
    new_v2ray_grpc_api alter_inbound deferred announce record_event itoa server_addr lookup to_lower
    wrap rollback undo_at has_prefix ◌>>=◌
halted_failed = refl

finalizer-rolls_back_example :
    RolledBack
      (refusing "10.0.0.3:10085")
      "ws+vless"
      (remove_user "kim@example.org")
      (add_user (protocol_user served.spec.user (vless "0f1e")))
      (svc_of (refusing "10.0.0.3:10085") find)
      (infos_of served.spec.node_list)
      []
      (alters halted.1)
finalizer-rolls_back_example =
    finalizer-rolls_back (refusing "10.0.0.3:10085") find refusing-StableServices served [] known
      halted_failed

abbrev key : ObjectKey
key = record { namespace = "vpn"; name = "kim" }

abbrev marked : V2rayUser
marked = record served {
  metadata = record served.metadata {
    finalizers = "vpn.hdcjh.xyz/finalizer" ∷ [];
    deletion_timestamp = some 7;
  };
}

-- The cluster holds the marked user.
abbrev marking : Env
marking = record world { get_user = λ h k. ok marked }

marking-StableServices : StableServices marking find
marking-StableServices h name svc found = cc

shown_known :
    account_of (finalizing marking marked).spec.inbound_tag (finalizing marking marked).spec.user
    ≡ some (vless "0f1e")
unfolding account_of contains finalizing with_condition
shown_known = refl

-- The finalizer is released: one object is written.
marked_written : length (user_writes (finalize marking key marked []).1) ≡ 1
unfolding finalize release finalizing with_condition do_finalizer_operations_for_v2ray_user
    account_of contains remove_account infos_of serve_each remove_from_svc
    get_v2ray_grpc_client_from_svc svc_config env grpc_port new_v2ray_grpc_api alter_inbound
    deferred announce record_event itoa server_addr lookup to_lower ◌>>=◌
marked_written = refl

marked_changes : user_writes (finalize marking key marked []).1 ≢ user_writes []
marked_changes unwritten =
    let none_written : suc zero ≡ zero = sym marked_written ∙ ap length unwritten in
    absurd (omega arith)

finalize-releases_after_removal_example :
    alters (finalize marking key marked []).1
    ≡ calls_onto marking "ws+vless" (remove_user "kim@example.org") (alpha ∷ beta ∷ gamma ∷ []) []
unfolding finalizing with_condition infos_of
finalize-releases_after_removal_example =
    finalize-releases_after_removal marking find marking-StableServices key marked [] refl
      shown_known marked_changes

-- A marked user whose node list is empty.
abbrev unserved : V2rayUser
unserved = record marked { spec = record marked.spec { node_list = [] } }

unserved_elects : elect_services_from_affinity world [] [] ≡ (done [], [])
unfolding elect_services_from_affinity elect_each ◌>>=◌
unserved_elects = refl

serve_user-no_node_example :
    let (r, h) = serve_user world key unserved [] in
    EmptyOrError r × (user_writes h ≡ []) × (alters h ≡ [])
serve_user-no_node_example = serve_user-no_node world key unserved [] unserved_elects
