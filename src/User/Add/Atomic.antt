-- ===== src/User/Add/Atomic.antt =====
-- `addUserToV2raySvcList` registers the user at every elected service, or takes back what it did.
use v2ray_operator.Prelude.{String, List, [], ◌∷◌, map, ◌≡◌, refl, ap, ◌∙◌, none, some, arith}
use v2ray_operator.Api.Core.{Service}
use v2ray_operator.Api.User.{V2rayUser}
use v2ray_operator.V2fly.Grpc.{labelled}
use v2ray_operator.Cluster.Effect.{
  Error, Outcome, done, failed, panicked, attempt, Reply, ok, err, ◌>>=◌,
}
use v2ray_operator.Cluster.Requests.{
  Account, ProtocolUser, InboundOperation, add_user, remove_user, History,
}
use v2ray_operator.Cluster.Env.{Env}
use v2ray_operator.Cluster.Client
use v2ray_operator.Cluster.Trace.{alters}
use v2ray_operator.User.Server.{account_of, protocol_user, svc_addr}
use v2ray_operator.User.Rollback.{Served}
use v2ray_operator.User.Rollback.Exact.{
  get_client-ClientSpec, calls_onto, alters-alter_inbound, AllPorts,
}
use v2ray_operator.User.Rollback.Loop.{RoundSpec, LoopSpec, serve_each-LoopSpec}
use v2ray_operator.User.Rollback.Ended.{
  RolledBack, EndedSpec, Interrupted-at_end, deferred-EndedSpec,
}
use v2ray_operator.User.Add.{
  NodeMap, Added, selected, find_node, first_or, add_to_svc, stored, with_nodes, store_nodes,
  finish, add_account, add_user_to_v2ray_svc_list,
}

abbrev pub same : Service → Service
same svc = svc

pub map-same : (svcs : List Service) → map same svcs ≡ svcs
map-same [] = refl
map-same (svc ∷ svcs) = ap (λ l. svc ∷ l) (map-same svcs)

module _ (E : Env) where
  alters-find_node : (svc : Service) (h : History) → alters (find_node E svc h).1 ≡ alters h
  unfolding find_node first_or selected ◌>>=◌
  alters-find_node svc h = ground arith

  module _ (tag : String) (user : ProtocolUser) where
    add_to_svc-RoundSpec :
        (svc : Service) (nodes : NodeMap) (h : History)
        → RoundSpec E tag (add_user user) same svc h (add_to_svc E tag user svc nodes h)
    unfolding add_to_svc labelled ◌>>=◌ svc_addr
    add_to_svc-RoundSpec svc nodes h =
        grind (arith, get_client-ClientSpec E svc h, alters-alter_inbound E, alters-find_node svc)

  stored-LoopSpec :
      (tag : String) (op : InboundOperation) (svcs served : List Service) (h : History)
      (r : Outcome (Reply V2rayUser) × History)
      → served ≡ map same svcs
      → AllPorts E (map same svcs)
      → alters r.1 ≡ calls_onto E tag op (map same svcs) (alters h)
      → LoopSpec E tag op same svcs [] h (stored E served r)
  unfolding stored
  stored-LoopSpec tag op svcs served h (done (ok cr), h') noted ports calls = (noted, ports, calls)
  stored-LoopSpec tag op svcs served h (done (err e), h') noted ports calls =
      Interrupted-at_end E tag op op same svcs served _ _ noted ports calls
  stored-LoopSpec tag op svcs served h (failed e, h') noted ports calls =
      Interrupted-at_end E tag op op same svcs served _ _ noted ports calls
  stored-LoopSpec tag op svcs served h (panicked m, h') noted ports calls =
      Interrupted-at_end E tag op op same svcs served _ _ noted ports calls

  alters-update :
      (cr : V2rayUser) (h : History) → alters (attempt (Client.update_user E cr) h).1 ≡ alters h
  unfolding ◌>>=◌
  alters-update cr h = ground arith

  alters-store_nodes :
      (cr : V2rayUser) (tag : String) (op : InboundOperation) (svcs : List Service) (h : History)
      (r : Served NodeMap)
      → LoopSpec E tag op same svcs [] h r
      → LoopSpec E tag op same svcs [] h (store_nodes E cr r)
  unfolding store_nodes ◌>>=◌
  alters-store_nodes cr tag op svcs h (failed e, served, h') i = i
  alters-store_nodes cr tag op svcs h (panicked m, served, h') i = i
  alters-store_nodes cr tag op svcs h (done nodes, served, h') (noted, ports, calls) =
      stored-LoopSpec tag op svcs served h _ noted ports
        (alters-update (with_nodes E cr nodes) h' ∙ calls)

  -- How `add_account` ends: registered everywhere, rolled back, or in a panic.
  abbrev AddSpec : V2rayUser → Account → List Service → History → Outcome Added × History → Type 0
  AddSpec cr account svcs h (done added, h') =
      let tag = cr.spec.inbound_tag in
      let op = add_user (protocol_user cr.spec.user account) in
      elim added.error [
        | none ↦ alters h' ≡ calls_onto E tag op svcs (alters h)
        | some e ↦
            RolledBack E tag op (remove_user cr.spec.user.email) same svcs (alters h) (alters h')
      ]
  AddSpec cr account svcs h (failed e, h') = ⊥
  AddSpec cr account svcs h (panicked m, h') = Unit

  finish-AddSpec :
      (cr left : V2rayUser) (account : Account) (svcs : List Service) (h : History)
      (r : Outcome V2rayUser × History)
      → EndedSpec E cr.spec.inbound_tag
          (add_user (protocol_user cr.spec.user account))
          (remove_user cr.spec.user.email)
          same
          svcs
          h
          r
      → AddSpec cr account svcs h (finish E left r)
  unfolding finish
  finish-AddSpec cr left account svcs h (done u, h') s = s ∙ rw (map-same svcs)
  finish-AddSpec cr left account svcs h (failed e, h') s = s
  finish-AddSpec cr left account svcs h (panicked m, h') s = s

  add_account-AddSpec :
      (cr : V2rayUser) (account : Account) (svcs : List Service) (h : History)
      → AddSpec cr account svcs h (add_account E cr account svcs h)
  unfolding add_account
  add_account-AddSpec cr account svcs h = finish-AddSpec cr _ account svcs h _ (
      deferred-EndedSpec E _ _ _ same svcs h _ (
        alters-store_nodes cr _ _ svcs h _
          (serve_each-LoopSpec E _ _ same _ (add_to_svc-RoundSpec _ _) svcs [] [] h)))

  add_user-AddSpec :
      (cr : V2rayUser) {account : Account} (svcs : List Service) (h : History)
      → account_of cr.spec.inbound_tag cr.spec.user ≡ some account
      → AddSpec cr account svcs h (add_user_to_v2ray_svc_list E cr svcs h)
  unfolding add_user_to_v2ray_svc_list
  add_user-AddSpec cr {account} svcs h known =
      rw (known, add_user_to_v2ray_svc_list) (add_account-AddSpec cr account svcs h)

  -- Where the inbound tag is known and the run reports no error, the user was sent to every elected
  -- service, once and in order, and no other alteration was made.
  pub add_user-registers_all :
      (cr : V2rayUser) (svcs : List Service) (h : History) {account : Account} {added : Added}
      {h' : History}
      → account_of cr.spec.inbound_tag cr.spec.user ≡ some account
      → add_user_to_v2ray_svc_list E cr svcs h ≡ (done added, h')
      → added.error ≡ none
      → alters h'
        ≡ calls_onto E cr.spec.inbound_tag
            (add_user (protocol_user cr.spec.user account))
            svcs
            (alters h)
  add_user-registers_all cr svcs h {account} known ran fine =
      rw fine at (rw ran at (add_user-AddSpec cr svcs h known))

  -- Where the inbound tag is known and the run reports an error, the services that had been served
  -- each got the removal of the user, in order and after all additions. At most one service more, the
  -- next one, got the addition, and it got no removal. No other alteration was made.
  pub add_user-rolls_back :
      (cr : V2rayUser) (svcs : List Service) (h : History) {account : Account} {added : Added}
      {h' : History} {e : Error}
      → account_of cr.spec.inbound_tag cr.spec.user ≡ some account
      → add_user_to_v2ray_svc_list E cr svcs h ≡ (done added, h')
      → added.error ≡ some e
      → RolledBack E cr.spec.inbound_tag
          (add_user (protocol_user cr.spec.user account))
          (remove_user cr.spec.user.email)
          same
          svcs
          (alters h)
          (alters h')
  add_user-rolls_back cr svcs h {account} known ran wrong =
      rw wrong at (rw ran at (add_user-AddSpec cr svcs h known))
