-- ===== src/User/Rollback/Exact.antt =====
-- Which `AlterInbound` calls the loop and its rollback make.
use v2ray_operator.Prelude.{String, true, false, List, [], ◌∷◌, map, ◌≡◌, refl, ◌∙◌, arith}
use v2ray_operator.Prelude.Int.{pos, eqb_ℤ}
use v2ray_operator.Api.Core.{Service}
use v2ray_operator.V2fly.Config.{server_addr}
use v2ray_operator.V2fly.Grpc.{V2rayGrpcApi, new_v2ray_grpc_api, alter_inbound}
use v2ray_operator.Cluster.Effect.{Outcome, done, failed, panicked, continue, caught, ◌>>=◌}
use v2ray_operator.Cluster.Requests.{InboundOperation, Call, History}
use v2ray_operator.Cluster.Env.{Env}
use v2ray_operator.Cluster.Trace.{alters, onto, UnlessPanic, unless_panic}
use v2ray_operator.User.Server.{svc_config, svc_addr, get_v2ray_grpc_client_from_svc}
use v2ray_operator.User.Rollback.{undo_at, rollback}

module _ (E : Env) where
  abbrev pub HasPort : Service → Type 0
  HasPort svc = eqb_ℤ (svc_config E svc).port (pos 0) ≡ false

  abbrev pub AllPorts : List Service → Type 0
  AllPorts [] = Unit
  AllPorts (svc ∷ svcs) = HasPort svc × AllPorts svcs

  -- What getting a client leaves: no alteration, and a client for the service's own address.
  abbrev pub ClientSpec : Service → History → Outcome V2rayGrpcApi × History → Type 0
  ClientSpec svc h (done api, h') =
      (api.config ≡ svc_config E svc) × HasPort svc × (alters h' ≡ alters h)
  ClientSpec svc h (failed e, h') =
      (eqb_ℤ (svc_config E svc).port (pos 0) ≡ true) × (alters h' ≡ alters h)
  ClientSpec svc h (panicked p, h') = alters h' ≡ alters h

  pub get_client-ClientSpec :
      (svc : Service) (h : History) → ClientSpec svc h (get_v2ray_grpc_client_from_svc E svc h)
  unfolding get_v2ray_grpc_client_from_svc new_v2ray_grpc_api ◌>>=◌
  get_client-ClientSpec svc h = ground arith

  abbrev pub call_at : String → InboundOperation → Service → Call
  call_at tag op svc = Call.alter_inbound (svc_addr E svc) tag op

  -- The calls that a list of services gets, in order, in front of earlier ones.
  abbrev pub calls_onto : String → InboundOperation → List Service → List Call → List Call
  calls_onto tag op svcs acc = onto (map (call_at tag op) svcs) acc

  -- One alteration is one call at the client's address, whatever the answer.
  pub alters-alter_inbound :
      (api : V2rayGrpcApi) (tag : String) (op : InboundOperation) (h : History)
      → alters (alter_inbound E api tag op h).1
        ≡ Call.alter_inbound (server_addr api.config) tag op ∷ alters h
  unfolding alter_inbound ◌>>=◌
  alters-alter_inbound api tag op h = ground arith

  module _ (tag : String) (op : InboundOperation) where
    undo_after :
        (svc : Service) (h : History) (r : Outcome V2rayGrpcApi × History)
        → ClientSpec svc h r
        → HasPort svc
        → let (r', h') = continue r.0 (λ cli. alter_inbound E cli tag op) r.1 in
          UnlessPanic (alters h' ≡ call_at tag op svc ∷ alters h) r'
    unfolding svc_addr
    undo_after svc h (done api, h') (same, _, quiet) p =
        unless_panic (alter_inbound E api tag op h').0
          (alters-alter_inbound api tag op h' ∙ rw (same, quiet))
    undo_after svc h (failed e, h') (missing, _) p = cc
    undo_after svc h (panicked m, h') quiet p = tt

    alters-undo_at :
        (svc : Service) (h : History)
        → HasPort svc
        → let (r, h') = undo_at E tag op svc h in
          UnlessPanic (alters h' ≡ call_at tag op svc ∷ alters h) r
    unfolding undo_at ◌>>=◌ svc_addr
    alters-undo_at svc h p = undo_after svc h _ (get_client-ClientSpec svc h) p

    rollback_after :
        (svc : Service) (svcs : List Service) (h : History) (r : Outcome (Unit {0}) × History)
        → UnlessPanic (alters r.1 ≡ call_at tag op svc ∷ alters h) r.0
        → ((h : History)
            → let (r, h') = rollback E tag op svcs h in
              UnlessPanic (alters h' ≡ calls_onto tag op svcs (alters h)) r)
        → let (r', h') =
            continue (caught r.0 r.1).0 (λ _. rollback E tag op svcs) (caught r.0 r.1).1 in
          UnlessPanic (alters h' ≡ calls_onto tag op (svc ∷ svcs) (alters h)) r'
    rollback_after svc svcs h (done a, h') did more = rw did at (more h')
    rollback_after svc svcs h (failed e, h') did more = rw did at (more h')
    rollback_after svc svcs h (panicked m, h') did more = tt

    pub alters-rollback :
        (svcs : List Service) (h : History)
        → AllPorts svcs
        → let (r, h') = rollback E tag op svcs h in
          UnlessPanic (alters h' ≡ calls_onto tag op svcs (alters h)) r
    unfolding rollback ◌>>=◌
    alters-rollback [] h p = refl
    alters-rollback (svc ∷ svcs) h p =
        rollback_after svc svcs h _ (alters-undo_at svc h p.0) (λ h'. alters-rollback svcs h' p.1)
