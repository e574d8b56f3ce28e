-- ===== src/User/Finalize/Succeeds.antt =====
-- When finalizer operations report no error.
use v2ray_operator.Prelude.{String, some, List, [], ◌∷◌, ◌++◌, ◌≡◌}
use v2ray_operator.Api.Core.{Service}
use v2ray_operator.Api.User.{V2rayNodeInfo, V2rayUser}
use v2ray_operator.V2fly.Grpc.{alter_inbound}
use v2ray_operator.Cluster.Effect.{Outcome, done, failed, panicked, ok, M, pure, ◌>>=◌, ◌>>◌}
use v2ray_operator.Cluster.Requests.{Account, add_user, remove_user, History}
use v2ray_operator.Cluster.Env.{Env}
use v2ray_operator.Cluster.Client.{record_event}
use v2ray_operator.User.Server.{
  v2ray_namespace, account_of, protocol_user, get_v2ray_grpc_client_from_svc,
}
use v2ray_operator.User.Rollback.{Served, serve_each, deferred}
use v2ray_operator.User.Rollback.Exact.{HasPort}
use v2ray_operator.User.Add.Succeeds.{
  Answers, IsDone, dial-IsDone, alter_inbound-IsDone, bind-IsDone,
}
use v2ray_operator.User.Finalize.{
  infos_of, remove_from_svc, announce, remove_account, do_finalizer_operations_for_v2ray_user,
}

-- Every service can be read, and has a port named grpc.
abbrev pub AnswersServices : Env → Type 0
AnswersServices E =
    (h : History) (name : String)
    → (svc : Service) × (E.get_service h (record { namespace = v2ray_namespace; name = name })
        ≡ ok svc)
      × HasPort E svc

module _ (E : Env) (answers : Answers E) (services : AnswersServices E) where
  -- The part of a round behind the lookup of the service.
  abbrev behind_lookup : String → String → Service → M (Service × Unit {0})
  behind_lookup tag email svc = do
    cli ← get_v2ray_grpc_client_from_svc E svc
    alter_inbound E cli tag (remove_user email)
    pure (svc, tt)

  behind_lookup-IsDone :
      (tag email : String) (svc : Service) (h : History)
      → HasPort E svc
      → IsDone (behind_lookup tag email svc h).0
  unfolding pure
  behind_lookup-IsDone tag email svc h port =
      bind-IsDone _ _ h (dial-IsDone E answers svc h port) (λ cli h.
        bind-IsDone _ _ h (alter_inbound-IsDone E answers cli tag (remove_user email) h)
          (λ _ h. tt))

  remove_from_svc-IsDone :
      (tag email : String) (info : V2rayNodeInfo) (u : Unit {0}) (h : History)
      → IsDone (remove_from_svc E tag email info u h).0
  unfolding remove_from_svc ◌>>=◌
  remove_from_svc-IsDone tag email info u h =
      let (svc, found, port) = services h info.svc_name in
      rw found (behind_lookup-IsDone tag email svc _ port)

  serve_each-IsDone :
      (tag email : String) (infos : List V2rayNodeInfo) (served : List Service) (h : History)
      → IsDone (serve_each (remove_from_svc E tag email) infos tt served h).0
  unfolding serve_each
  serve_each-IsDone tag email [] served h = tt
  serve_each-IsDone tag email (info ∷ infos) served h =
      round (remove_from_svc E tag email info tt h) (remove_from_svc-IsDone tag email info tt h)
        (λ served h. serve_each-IsDone tag email infos served h)
    where
      round :
          (r : Outcome (Service × Unit {0}) × History)
          → IsDone r.0
          → ((served : List Service) (h : History)
              → IsDone (serve_each (remove_from_svc E tag email) infos tt served h).0)
          → let s : Served (Unit {0}) = elim r.0 [
            | done p ↦ serve_each (remove_from_svc E tag email) infos p.1 (served ++ p.0 ∷ []) r.1
            | failed e ↦ (failed e, served, r.1)
            | panicked p ↦ (panicked p, served, r.1)
          ] in
            IsDone s.0
      round (done p, h') first rest = rest _ h'
      round (failed e, h') first rest = absurd first
      round (panicked m, h') first rest = absurd first

  ended :
      (cr : V2rayUser) (account : Account) (looped : Served (Unit {0}))
      → IsDone looped.0
      → let (o, h) =
          deferred E cr.spec.inbound_tag (add_user (protocol_user cr.spec.user account)) looped in
        IsDone (announce E cr o h).0
  unfolding deferred announce record_event ◌>>=◌
  ended cr account (done u, served, h) first = tt
  ended cr account (failed e, served, h) first = absurd first
  ended cr account (panicked m, served, h) first = absurd first

  pub finalizer-IsDone :
      (cr : V2rayUser) (h : History) {account : Account}
      → account_of cr.spec.inbound_tag cr.spec.user ≡ some account
      → IsDone (do_finalizer_operations_for_v2ray_user E cr h).0
  unfolding do_finalizer_operations_for_v2ray_user remove_account
  finalizer-IsDone cr h {account} known =
      rw (known, do_finalizer_operations_for_v2ray_user)
        (ended cr account _ (serve_each-IsDone _ _ (infos_of cr.spec.node_list) [] h))
