-- ===== src/User/Finalize/Atomic.antt =====
-- `doFinalizerOperationsForV2rayUser` takes the user off every server that the node list names, or
-- puts it back where it was taken off.
use v2ray_operator.Prelude.{String, [], map, ◌≡◌, some, arith}
use v2ray_operator.Api.Core.{Service}
use v2ray_operator.Api.User.{V2rayNodeInfo, V2rayUser}
use v2ray_operator.Cluster.Effect.{Error, ok, Outcome, done, failed, panicked, ◌>>=◌}
use v2ray_operator.Cluster.Requests.{Account, add_user, remove_user, History}
use v2ray_operator.Cluster.Env.{Env}
use v2ray_operator.Cluster.Client.{record_event}
use v2ray_operator.Cluster.Trace.{alters}
use v2ray_operator.User.Server.{v2ray_namespace, account_of, protocol_user, svc_addr}
use v2ray_operator.User.Rollback.Exact.{get_client-ClientSpec, calls_onto, alters-alter_inbound}
use v2ray_operator.User.Rollback.Loop.{RoundSpec, serve_each-LoopSpec}
use v2ray_operator.User.Rollback.Ended.{RolledBack, EndedSpec, deferred-EndedSpec}
use v2ray_operator.User.Finalize.{
  infos_of, remove_from_svc, announce, remove_account, do_finalizer_operations_for_v2ray_user,
}

module _ (E : Env) (find : String → Service) where
  -- Whatever has been called, a service that can be read under its name is the one that `find` knows.
  abbrev pub StableServices : Type 0
  StableServices =
      (h : History) (name : String) (svc : Service)
      → E.get_service h (record { namespace = v2ray_namespace; name = name }) ≡ ok svc
      → svc ≡ find name

  abbrev pub svc_of : V2rayNodeInfo → Service
  svc_of info = find info.svc_name

  module _ (stable : StableServices) where
    remove_from_svc-RoundSpec :
        (tag email : String) (info : V2rayNodeInfo) (u : Unit {0}) (h : History)
        → RoundSpec E tag (remove_user email) svc_of info h (remove_from_svc E tag email info u h)
    unfolding remove_from_svc ◌>>=◌ svc_addr
    remove_from_svc-RoundSpec tag email info u h = grind (
      arith,
      stable h info.svc_name,
      get_client-ClientSpec E (find info.svc_name),
      alters-alter_inbound E,
    )

    abbrev FinalSpec : V2rayUser → Account → History → Outcome (Unit {0}) × History → Type 0
    FinalSpec cr account h r =
        EndedSpec E cr.spec.inbound_tag (remove_user cr.spec.user.email)
          (add_user (protocol_user cr.spec.user account)) svc_of (infos_of cr.spec.node_list) h r

    announce-FinalSpec :
        (cr : V2rayUser) (account : Account) (h : History) (r : Outcome (Unit {0}) × History)
        → FinalSpec cr account h r
        → FinalSpec cr account h (announce E cr r.0 r.1)
    unfolding announce ◌>>=◌ record_event
    announce-FinalSpec cr account h (done u, h') s = s
    announce-FinalSpec cr account h (failed e, h') s = s
    announce-FinalSpec cr account h (panicked m, h') s = s

    remove_account-FinalSpec :
        (cr : V2rayUser) (account : Account) (h : History)
        → FinalSpec cr account h (remove_account E cr account h)
    unfolding remove_account
    remove_account-FinalSpec cr account h = announce-FinalSpec cr account h _ (
        deferred-EndedSpec E _ _ _ svc_of _ h _ (
          serve_each-LoopSpec E _ _ svc_of _ (remove_from_svc-RoundSpec _ _)
            (infos_of cr.spec.node_list) tt [] h))

    pub finalizer-FinalSpec :
        (cr : V2rayUser) {account : Account} (h : History)
        → account_of cr.spec.inbound_tag cr.spec.user ≡ some account
        → FinalSpec cr account h (do_finalizer_operations_for_v2ray_user E cr h)
    unfolding do_finalizer_operations_for_v2ray_user
    finalizer-FinalSpec cr {account} h known =
        rw (known, do_finalizer_operations_for_v2ray_user) (remove_account-FinalSpec cr account h)

-- Where services keep their names and the inbound tag is known, finalizer operations that return
-- without an error have sent the removal of the user to the service of every entry of the node list,
-- once for each entry and in order, and made no other alteration.
pub finalizer-removes_all :
    (E : Env) (find : String → Service)
    → StableServices E find
    → (cr : V2rayUser) (h : History) {account : Account} {h' : History}
    → account_of cr.spec.inbound_tag cr.spec.user ≡ some account
    → do_finalizer_operations_for_v2ray_user E cr h ≡ (done tt, h')
    → alters h'
      ≡ calls_onto E cr.spec.inbound_tag
          (remove_user cr.spec.user.email)
          (map (svc_of E find) (infos_of cr.spec.node_list))
          (alters h)
finalizer-removes_all E find stable cr h known ran =
    rw ran at (finalizer-FinalSpec E find stable cr h known)

-- Where services keep their names and the inbound tag is known, finalizer operations that return an
-- error have put the user back, in order, at the services that it had been removed from. At most one
-- service more, the next one, got the removal, and it got no addition.
pub finalizer-rolls_back :
    (E : Env) (find : String → Service)
    → StableServices E find
    → (cr : V2rayUser) (h : History) {account : Account} {e : Error} {h' : History}
    → account_of cr.spec.inbound_tag cr.spec.user ≡ some account
    → do_finalizer_operations_for_v2ray_user E cr h ≡ (failed e, h')
    → RolledBack E cr.spec.inbound_tag
        (remove_user cr.spec.user.email)
        (add_user (protocol_user cr.spec.user account))
        (svc_of E find)
        (infos_of cr.spec.node_list)
        (alters h)
        (alters h')
finalizer-rolls_back E find stable cr h known ran =
    rw ran at (finalizer-FinalSpec E find stable cr h known)
