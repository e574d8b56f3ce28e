-- ===== src/User/Reconcile/Release.antt =====
-- When the finalizer of a V2rayUser is released.
use v2ray_operator.Prelude.{String, ◌∷◌, map, ◌≡◌, ◌≢◌, refl, ◌∙◌, some, arith}
use v2ray_operator.Api.Meta.{ObjectKey}
use v2ray_operator.Api.Core.{Service}
use v2ray_operator.Api.User.{V2rayUser}
use v2ray_operator.Cluster.Effect.{ok, Outcome, done, failed, panicked, continue, ◌>>=◌}
use v2ray_operator.Cluster.Requests.{Account, remove_user, Call, History}
use v2ray_operator.Cluster.Env.{Env}
use v2ray_operator.Cluster.Trace.{alters, user_writes}
use v2ray_operator.User.Server.{account_of}
use v2ray_operator.User.Rollback.Exact.{calls_onto}
use v2ray_operator.User.Finalize.{infos_of, do_finalizer_operations_for_v2ray_user}
use v2ray_operator.User.Finalize.Atomic.{StableServices, svc_of, finalizer-removes_all}
use v2ray_operator.User.Finalize.Writes.{writes-finalizer}
use v2ray_operator.User.Reconcile.{finalize, finalizing, release}

module _ (E : Env) where
  alters-release : (key : ObjectKey) (h : History) → alters (release E key h).1 ≡ alters h
  unfolding release ◌>>=◌
  alters-release key h = ground arith

  module _ (find : String → Service) (stable : StableServices E find) where
    -- The rest of `finalize`, by how the finalizer operations ended.
    after_operations :
        (key : ObjectKey) (stored : V2rayUser) {account : Account} (h : History)
        (r : Outcome (Unit {0}) × History)
        → account_of stored.spec.inbound_tag stored.spec.user ≡ some account
        → do_finalizer_operations_for_v2ray_user E stored h ≡ r
        → user_writes (continue r.0 (λ _. release E key) r.1).1 ≢ user_writes h
        → alters (continue r.0 (λ _. release E key) r.1).1
          ≡ calls_onto E stored.spec.inbound_tag
              (remove_user stored.spec.user.email)
              (map (svc_of E find) (infos_of stored.spec.node_list))
              (alters h)
    after_operations key stored h (done u, h') known ran wrote =
        alters-release key h' ∙ finalizer-removes_all E find stable stored h known ran
    after_operations key stored h (failed e, h') known ran wrote =
        absurd (wrote (rw ran at (writes-finalizer E stored h)))
    after_operations key stored h (panicked m, h') known ran wrote =
        absurd (wrote (rw ran at (writes-finalizer E stored h)))

  after_status :
      (key : ObjectKey) (cr : V2rayUser) (h : History) {stored : V2rayUser}
      → E.update_user_status h (finalizing E cr) ≡ ok stored
      → finalize E key cr h ≡ (
          let (r, h') =
            do_finalizer_operations_for_v2ray_user E stored
              (Call.update_user_status (finalizing E cr) ∷ h) in
          continue r (λ _. release E key) h')
  unfolding finalize ◌>>=◌
  after_status key cr h answer = rw (answer, finalize, ◌>>=◌)

-- A finalization that writes the object, as it does to release the finalizer, has sent the removal
-- of the user to the service of every entry of the node list that the status update answered with,
-- and made no other alteration. This is for services that keep their names and a known inbound tag.
pub finalize-releases_after_removal :
    (E : Env) (find : String → Service)
    → StableServices E find
    → (key : ObjectKey) (cr : V2rayUser) (h : History) {stored : V2rayUser} {account : Account}
    → E.update_user_status h (finalizing E cr) ≡ ok stored
    → account_of stored.spec.inbound_tag stored.spec.user ≡ some account
    → user_writes (finalize E key cr h).1 ≢ user_writes h
    → alters (finalize E key cr h).1
      ≡ calls_onto E stored.spec.inbound_tag
          (remove_user stored.spec.user.email)
          (map (svc_of E find) (infos_of stored.spec.node_list))
          (alters h)
finalize-releases_after_removal E find stable key cr h {stored} answer known wrote =
    rw (after_status E key cr h answer) (
      after_operations E find stable key stored _ _ known refl
        (rw (after_status E key cr h answer) at wrote))
