-- ===== src/User/Add/Succeeds.antt =====
-- When `addUserToV2raySvcList` reports no error.
use v2ray_operator.Prelude.{String, none, some, List, [], ◌∷◌, ◌++◌, ◌≡◌, refl}
use v2ray_operator.Prelude.Maps.{Dict}
use v2ray_operator.Api.Meta.{ObjectKey}
use v2ray_operator.Api.Core.{Service, Pod, Node}
use v2ray_operator.Api.Deployment.{Deployment}
use v2ray_operator.Api.User.{V2rayUser}
use v2ray_operator.V2fly.Grpc.{V2rayGrpcApi, labelled, alter_inbound, new_v2ray_grpc_api}
use v2ray_operator.Cluster.Effect.{
  Outcome, done, failed, panicked, ok, err, M, pure, fail, wrap, caught, continue, ◌>>=◌,
}
use v2ray_operator.Cluster.Requests.{Account, ProtocolUser, InboundOperation, Call, History}
use v2ray_operator.Cluster.Env.{Env}
use v2ray_operator.Cluster.Trace.{attempt-request}
use v2ray_operator.User.Server.{account_of, get_v2ray_grpc_client_from_svc}
use v2ray_operator.User.Rollback.{Served, serve_each, deferred}
use v2ray_operator.User.Rollback.Exact.{AllPorts, HasPort}
use v2ray_operator.User.Add.{
  NodeMap, Added, find_node, first_or, selected, add_to_svc, stored, with_nodes, store_nodes,
  finish, add_account, add_user_to_v2ray_svc_list,
}

-- Every request that a registration makes is answered, and the lists have an entry.
pub record Answers (E : Env) : Type 0 where
  pub dials : (h : History) (addr : String) → E.dial h addr ≡ ok tt
  pub alters :
      (h : History) (addr tag : String) (op : InboundOperation)
      → E.alter_inbound h addr tag op ≡ ok tt
  pub deployments :
      (h : History) (ns : String) (ls : Dict String)
      → (d : Deployment) × (ds : List Deployment) × (labels : Dict String) × (E.list_deployments h
            ns ls
          ≡ ok (d ∷ ds))
        × (d.match_labels ≡ some labels)
  pub pods :
      (h : History) (ns : String) (ls : Dict String)
      → (p : Pod) × (ps : List Pod) × (E.list_pods h ns ls ≡ ok (p ∷ ps))
  pub nodes : (h : History) (k : ObjectKey) → (n : Node) × (E.get_node h k ≡ ok n)
  pub updates : (h : History) (u : V2rayUser) → (u' : V2rayUser) × (E.update_user h u ≡ ok u')

abbrev pub IsDone : {A : Type 0} → Outcome A → Type 0
IsDone (done a) = Unit
IsDone (failed e) = ⊥
IsDone (panicked m) = ⊥

module _ (E : Env) (answers : Answers E) where
  find_node-IsDone : (svc : Service) (h : History) → IsDone (find_node E svc h).0
  unfolding find_node first_or selected ◌>>=◌
  find_node-IsDone svc h =
      let (d, ds, labels, deployed, selects) =
        answers.deployments h svc.metadata.namespace svc.selector in
      let h1 : History = Call.list_deployments svc.metadata.namespace svc.selector ∷ h in
      let (p, ps, podded) = answers.pods h1 d.metadata.namespace labels in
      let h2 : History = Call.list_pods d.metadata.namespace labels ∷ h1 in
      let k : ObjectKey = record { namespace = p.metadata.namespace; name = p.node_name } in
      rw deployed (rw selects (rw podded (rw (answers.nodes h2 k).1 tt)))

  pub dial-IsDone :
      (svc : Service) (h : History)
      → HasPort E svc
      → IsDone (get_v2ray_grpc_client_from_svc E svc h).0
  unfolding get_v2ray_grpc_client_from_svc new_v2ray_grpc_api ◌>>=◌
  dial-IsDone svc h port = rw port (rw attempt-request (rw answers.dials tt))

  pub alter_inbound-IsDone :
      (api : V2rayGrpcApi) (tag : String) (op : InboundOperation) (h : History)
      → IsDone (alter_inbound E api tag op h).0
  unfolding alter_inbound ◌>>=◌
  alter_inbound-IsDone api tag op h = rw attempt-request (rw answers.alters tt)

module _ {A B : Type 0} where
  continue-IsDone :
      (f : A → M B) (r : Outcome A × History)
      → IsDone r.0
      → ((a : A) (h : History) → IsDone (f a h).0)
      → IsDone (continue r.0 f r.1).0
  continue-IsDone f (done a, h) first next = next a h
  continue-IsDone f (failed e, h) first next = absurd first
  continue-IsDone f (panicked m, h) first next = absurd first

  pub bind-IsDone :
      (m : M A) (f : A → M B) (h : History)
      → IsDone (m h).0
      → ((a : A) (h : History) → IsDone (f a h).0)
      → IsDone ((m >>= f) h).0
  unfolding ◌>>=◌
  bind-IsDone m f h first next = continue-IsDone f (m h) first next

caught-IsDone :
    {A : Type 0} (text : String) (r : Outcome A × History)
    → IsDone r.0
    → IsDone
        (continue
          (caught r.0 r.1).0
          (λ a. elim a [ ok x ↦ pure x | err e ↦ fail (wrap text e) ])
          (caught r.0 r.1).1).0
unfolding ◌>>=◌
caught-IsDone text (done a, h) first = tt
caught-IsDone text (failed e, h) first = absurd first
caught-IsDone text (panicked m, h) first = absurd first

labelled-IsDone :
    {A : Type 0} (text : String) (m : M A) (h : History)
    → IsDone (m h).0
    → IsDone (labelled text m h).0
unfolding labelled ◌>>=◌
labelled-IsDone text m h first = caught-IsDone text (m h) first

module _ (E : Env) (answers : Answers E) (tag : String) (user : ProtocolUser) where
  add_to_svc-IsDone :
      (svc : Service) (nodes : NodeMap) (h : History)
      → HasPort E svc
      → IsDone (add_to_svc E tag user svc nodes h).0
  unfolding add_to_svc pure
  add_to_svc-IsDone svc nodes h port =
      bind-IsDone _ _ h (labelled-IsDone _ _ h (dial-IsDone E answers svc h port)) λ cli h.
        bind-IsDone _ _ h (labelled-IsDone _ _ h (alter_inbound-IsDone E answers cli tag _ h))
          λ _ h. bind-IsDone _ _ h (find_node-IsDone E answers svc h) λ info h. tt

  serve_each-IsDone :
      (svcs : List Service) (nodes : NodeMap) (served : List Service) (h : History)
      → AllPorts E svcs
      → IsDone (serve_each (add_to_svc E tag user) svcs nodes served h).0
  unfolding serve_each
  serve_each-IsDone [] nodes served h ports = tt
  serve_each-IsDone (svc ∷ svcs) nodes served h (port, ports) =
      round (add_to_svc E tag user svc nodes h) (add_to_svc-IsDone svc nodes h port)
        (λ nodes served h. serve_each-IsDone svcs nodes served h ports)
    where
      round :
          (r : Outcome (Service × NodeMap) × History)
          → IsDone r.0
          → ((nodes : NodeMap) (served : List Service) (h : History)
              → IsDone (serve_each (add_to_svc E tag user) svcs nodes served h).0)
          → let s : Served NodeMap = elim r.0 [
            | done p ↦ serve_each (add_to_svc E tag user) svcs p.1 (served ++ p.0 ∷ []) r.1
            | failed e ↦ (failed e, served, r.1)
            | panicked p ↦ (panicked p, served, r.1)
          ] in
            IsDone s.0
      round (done p, h') first more = more p.1 _ h'
      round (failed e, h') first more = absurd first
      round (panicked m, h') first more = absurd first

-- The run returned, and reported no error.
abbrev pub Succeeds : Outcome Added → Type 0
Succeeds (done added) = added.error ≡ none
Succeeds (failed e) = ⊥
Succeeds (panicked m) = ⊥

module _ (E : Env) (answers : Answers E) (cr left : V2rayUser) where
  finished :
      (tag : String) (op : InboundOperation) (looped : Served NodeMap)
      → IsDone looped.0
      → Succeeds (finish E left (deferred E tag op (store_nodes E cr looped))).0
  unfolding finish deferred store_nodes stored
  finished tag op (done nodes, served, h) first =
      rw attempt-request (rw (answers.updates h (with_nodes E cr nodes)).1 refl)
  finished tag op (failed e, served, h) first = absurd first
  finished tag op (panicked m, served, h) first = absurd first

-- Where every request is answered, the listings have an entry, the inbound tag is known and every
-- elected service has a port named grpc, the run returns and reports no error.
pub add_user-Succeeds :
    (E : Env)
    → Answers E
    → (cr : V2rayUser) (svcs : List Service) (h : History) {account : Account}
    → account_of cr.spec.inbound_tag cr.spec.user ≡ some account
    → AllPorts E svcs
    → Succeeds (add_user_to_v2ray_svc_list E cr svcs h).0
unfolding add_user_to_v2ray_svc_list add_account
add_user-Succeeds E answers cr svcs h known ports =
    rw (known, add_user_to_v2ray_svc_list)
      (finished E answers cr _ _ _ _ (serve_each-IsDone E answers _ _ svcs [] [] h ports))
