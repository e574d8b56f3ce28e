-- ===== src/User/Calls.antt =====
-- The calls that rounds of registration, finalizer operations and rollback make.
pub mod Whole
use v2ray_operator.Prelude.{
  String, Bool, true, false, List, [], ◌∷◌, ◌++◌, ◌≡◌, refl, none, some, Option, ◌⊎◌, inl, inr,
  arith,
}
use v2ray_operator.Prelude.Maps.{Dict}
use v2ray_operator.Api.Core.{Service}
use v2ray_operator.Api.User.{V2rayNodeInfo, V2rayUser}
use v2ray_operator.V2fly.Config.{server_addr}
use v2ray_operator.V2fly.Grpc.{V2rayGrpcApi, alter_inbound}
use v2ray_operator.V2fly.Grpc.Connects.{
  Connects, Connects-new, Connects-fail, Connects-if, Connects-labelled, Makes-labelled,
  Makes-connect,
}
use v2ray_operator.Cluster.Effect.{M, Reply, ok, err, panic, Outcome, done, failed, panicked}
use v2ray_operator.Cluster.Requests.{Account, InboundOperation, ProtocolUser, Call, History}
use v2ray_operator.Cluster.Env.{Env}
use v2ray_operator.Cluster.Trace.{attempt-request}
use v2ray_operator.Cluster.Adds.{Adds, stop, more, Adds-trans, connected}
use v2ray_operator.Cluster.Makes.{Makes, Makes-attempt, Makes-bind, Makes-request, makes_rules}
use v2ray_operator.User.Server.{account_of, get_v2ray_grpc_client_from_svc}
use v2ray_operator.User.Rollback.{Served, serve_each, undo_at, rollback, deferred}
use v2ray_operator.User.Add.{
  NodeMap, first_or, selected, find_node, add_to_svc, stored, store_nodes, finish, add_account,
  add_user_to_v2ray_svc_list,
}
use v2ray_operator.User.Finalize.{
  infos_of, remove_from_svc, announce, remove_account, do_finalizer_operations_for_v2ray_user,
}

-- Its own objects, reads of the services and of what runs behind them, events, and alterations of
-- users at servers that are connected to.
abbrev pub by_user : Env → History → Call → Bool
by_user E h (Call.get_user k) = true
by_user E h (Call.update_user u) = true
by_user E h (Call.update_user_status u) = true
by_user E h (Call.get_service k) = true
by_user E h (Call.get_node k) = true
by_user E h (Call.list_services ns ls) = true
by_user E h (Call.list_deployments ns ls) = true
by_user E h (Call.list_pods ns ls) = true
by_user E h (Call.record_event kind reason message) = true
by_user E h Call.new_uuid = true
by_user E h (Call.dial addr) = true
by_user E h (Call.alter_inbound addr tag op) = connected E addr h
by_user E h _ = false

module _ (E : Env) where
  get_client-Connects :
      (server : Option String) (svc : Service)
      → Connects (by_user E) E server (get_v2ray_grpc_client_from_svc E svc)
  unfolding get_v2ray_grpc_client_from_svc
  get_client-Connects server svc =
      Connects-if _ _ _ (Connects-fail _) (Connects-new _ (λ h addr. refl))

  alter_inbound-Makes :
      (api : V2rayGrpcApi) (tag : String) (op : InboundOperation)
      → Makes (by_user E) E (some (server_addr api.config)) (alter_inbound E api tag op)
  unfolding alter_inbound
  alter_inbound-Makes api tag op = search makes_rules depth 12

  first_or-Makes :
      {A : Type 0} (server : Option String) (text : String) (xs : List A)
      → Makes (by_user E) E server (first_or text xs)
  unfolding first_or
  first_or-Makes server text [] = search makes_rules
  first_or-Makes server text (x ∷ xs) = search makes_rules

  selected-Makes :
      (server : Option String) (o : Option (Dict String)) → Makes (by_user E) E server (selected o)
  unfolding selected panic
  selected-Makes server none = record { at = λ h now. stop }
  selected-Makes server (some labels) = search makes_rules

  find_node-Makes :
      (server : Option String) (svc : Service) → Makes (by_user E) E server (find_node E svc)
  unfolding find_node
  find_node-Makes server svc = search (makes_rules, first_or-Makes, selected-Makes) depth 16

  pub add_to_svc-Makes :
      (tag : String) (user : ProtocolUser) (svc : Service) (nodes : NodeMap)
      → Makes (by_user E) E none (add_to_svc E tag user svc nodes)
  unfolding add_to_svc
  add_to_svc-Makes tag user svc nodes =
      Makes-connect _ _ (Connects-labelled _ _ (get_client-Connects none svc))
        (λ api. search (makes_rules, Makes-labelled, alter_inbound-Makes, find_node-Makes) depth 16)

  pub remove_from_svc-Makes :
      (tag email : String) (info : V2rayNodeInfo) (u : Unit {0})
      → Makes (by_user E) E none (remove_from_svc E tag email info u)
  unfolding remove_from_svc
  remove_from_svc-Makes tag email info u =
      Makes-bind _ _ (Makes-request _ _ (λ h now. refl)) (λ svc.
        Makes-connect _ _ (get_client-Connects none svc)
          (λ api. search (makes_rules, alter_inbound-Makes) depth 12))

  undo_at-Makes :
      (tag : String) (op : InboundOperation) (svc : Service)
      → Makes (by_user E) E none (undo_at E tag op svc)
  unfolding undo_at
  undo_at-Makes tag op svc =
      Makes-connect _ _ (get_client-Connects none svc) (λ api. alter_inbound-Makes api tag op)

  pub rollback-Makes :
      (tag : String) (op : InboundOperation) (svcs : List Service)
      → Makes (by_user E) E none (rollback E tag op svcs)
  unfolding rollback
  rollback-Makes tag op [] = search makes_rules
  rollback-Makes tag op (svc ∷ svcs) =
      Makes-bind _ _ (Makes-attempt _ (undo_at-Makes tag op svc)) (λ _. rollback-Makes tag op svcs)
