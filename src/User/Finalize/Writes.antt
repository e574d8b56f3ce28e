-- ===== src/User/Finalize/Writes.antt =====
-- The finalizer operations write no V2rayUser object.
use v2ray_operator.Prelude.{String, List, [], ◌∷◌, ◌≡◌, refl, ◌∙◌, arith, Option-cases, inl, inr}
use v2ray_operator.Api.Core.{Service}
use v2ray_operator.Api.User.{V2rayNodeInfo, V2rayUser}
use v2ray_operator.V2fly.Grpc.{V2rayGrpcApi, new_v2ray_grpc_api, alter_inbound}
use v2ray_operator.Cluster.Effect.{Outcome, done, failed, panicked, ◌>>=◌}
use v2ray_operator.Cluster.Requests.{InboundOperation, Account, History}
use v2ray_operator.Cluster.Env.{Env}
use v2ray_operator.Cluster.Client.{record_event}
use v2ray_operator.Cluster.Trace.{user_writes}
use v2ray_operator.User.Server.{get_v2ray_grpc_client_from_svc, account_of}
use v2ray_operator.User.Rollback.{Served, serve_each, undo_at, rollback, deferred}
use v2ray_operator.User.Finalize.{
  remove_from_svc, announce, remove_account, do_finalizer_operations_for_v2ray_user,
}

module _ (E : Env) where
  writes-get_client :
      (svc : Service) (h : History)
      → user_writes (get_v2ray_grpc_client_from_svc E svc h).1 ≡ user_writes h
  unfolding get_v2ray_grpc_client_from_svc new_v2ray_grpc_api ◌>>=◌
  writes-get_client svc h = ground arith

  writes-alter_inbound :
      (api : V2rayGrpcApi) (tag : String) (op : InboundOperation) (h : History)
      → user_writes (alter_inbound E api tag op h).1 ≡ user_writes h
  unfolding alter_inbound ◌>>=◌
  writes-alter_inbound api tag op h = ground arith

  writes-undo_at :
      (tag : String) (op : InboundOperation) (svc : Service) (h : History)
      → user_writes (undo_at E tag op svc h).1 ≡ user_writes h
  unfolding undo_at ◌>>=◌
  writes-undo_at tag op svc h = grind (arith, writes-get_client, writes-alter_inbound)

  writes-rollback :
      (tag : String) (op : InboundOperation) (svcs : List Service) (h : History)
      → user_writes (rollback E tag op svcs h).1 ≡ user_writes h
  unfolding rollback ◌>>=◌
  writes-rollback tag op [] h = refl
  writes-rollback tag op (svc ∷ svcs) h =
      grind (arith, writes-undo_at tag op svc h, writes-rollback tag op svcs)

  writes-remove_from_svc :
      (tag email : String) (info : V2rayNodeInfo) (u : Unit {0}) (h : History)
      → user_writes (remove_from_svc E tag email info u h).1 ≡ user_writes h
  unfolding remove_from_svc ◌>>=◌
  writes-remove_from_svc tag email info u h = grind (arith, writes-get_client, writes-alter_inbound)

  writes-serve_each :
      (tag email : String) (infos : List V2rayNodeInfo) (u : Unit {0}) (served : List Service)
      (h : History)
      → user_writes (serve_each (remove_from_svc E tag email) infos u served h).2 ≡ user_writes h
  unfolding serve_each
  writes-serve_each tag email [] u served h = refl
  writes-serve_each tag email (info ∷ infos) u served h =
      grind (arith, writes-remove_from_svc tag email info u h, writes-serve_each tag email infos)

  writes-deferred :
      (tag : String) (op : InboundOperation) (r : Served (Unit {0}))
      → user_writes (deferred E tag op r).1 ≡ user_writes r.2
  unfolding deferred
  writes-deferred tag op (done u, served, h) = refl
  writes-deferred tag op (failed e, served, h) = grind (arith, writes-rollback tag op served h)
  writes-deferred tag op (panicked m, served, h) = grind (arith, writes-rollback tag op served h)

  writes-announce :
      (cr : V2rayUser) (r : Outcome (Unit {0})) (h : History)
      → user_writes (announce E cr r h).1 ≡ user_writes h
  unfolding announce ◌>>=◌ record_event
  writes-announce cr (done u) h = refl
  writes-announce cr (failed e) h = refl
  writes-announce cr (panicked m) h = refl

  writes-remove_account :
      (cr : V2rayUser) (account : Account) (h : History)
      → user_writes (remove_account E cr account h).1 ≡ user_writes h
  unfolding remove_account
  writes-remove_account cr account h =
      writes-announce cr _ _ ∙ writes-deferred _ _ _ ∙ writes-serve_each _ _ _ tt [] h

  pub writes-finalizer :
      (cr : V2rayUser) (h : History)
      → user_writes (do_finalizer_operations_for_v2ray_user E cr h).1 ≡ user_writes h
  unfolding do_finalizer_operations_for_v2ray_user ◌>>=◌
  writes-finalizer cr h = elim (Option-cases (account_of cr.spec.inbound_tag cr.spec.user)) [
    | inl unknown ↦ rw (unknown, do_finalizer_operations_for_v2ray_user)
    | inr (account, known) ↦
        rw (known, do_finalizer_operations_for_v2ray_user) (writes-remove_account cr account h)
  ]
