-- ===== src/User/Calls/Whole.antt =====
-- The calls that registration and finalizer operations of the V2rayUser controller make.
use v2ray_operator.Prelude.{
  String, List, [], ◌∷◌, ◌++◌, ◌≡◌, refl, none, some, Option, ◌⊎◌, inl, inr, arith,
}
use v2ray_operator.Api.Core.{Service}
use v2ray_operator.Api.User.{V2rayUser}
use v2ray_operator.Cluster.Effect.{M, Reply, ok, err, Outcome, done, failed, panicked}
use v2ray_operator.Cluster.Requests.{Account, InboundOperation, History}
use v2ray_operator.Cluster.Env.{Env}
use v2ray_operator.Cluster.Trace.{attempt-request}
use v2ray_operator.Cluster.Adds.{Adds, stop, more, Adds-trans}
use v2ray_operator.Cluster.Makes.{Makes, makes_rules}
use v2ray_operator.User.Server.{account_of}
use v2ray_operator.User.Rollback.{Served, serve_each, rollback, deferred}
use v2ray_operator.User.Add.{
  NodeMap, stored, store_nodes, finish, add_account, add_user_to_v2ray_svc_list,
}
use v2ray_operator.User.Finalize.{
  infos_of, announce, remove_account, do_finalizer_operations_for_v2ray_user,
}
use v2ray_operator.User.Calls.{by_user, add_to_svc-Makes, remove_from_svc-Makes, rollback-Makes}

module _ (E : Env) where
  module _ {X S : Type 0} (step : X → S → M (Service × S)) where
    serve_each-Adds :
        ((x : X) (s : S) → Makes (by_user E) E none (step x s))
        → (xs : List X) (s : S) (served : List Service) (h : History)
        → Adds (by_user E) h (serve_each step xs s served h).2
    unfolding serve_each
    serve_each-Adds steps [] s served h = stop
    serve_each-Adds steps (x ∷ xs) s served h =
        going_on (step x s h) ((steps x s).at h tt)
          (λ s served h. serve_each-Adds steps xs s served h)
      where
        going_on :
            (r : Outcome (Service × S) × History)
            → Adds (by_user E) h r.1
            → ((s : S) (served : List Service) (h : History)
                → Adds (by_user E) h (serve_each step xs s served h).2)
            → Adds
                (by_user E)
                h
                (elim r.0 as (λ _. Served S) [
                  | done p ↦ serve_each step xs p.1 (served ++ p.0 ∷ []) r.1
                  | failed e ↦ (failed e, served, r.1)
                  | panicked p ↦ (panicked p, served, r.1)
                ]).2
        going_on (done p, h') first rest = Adds-trans first (rest p.1 (served ++ p.0 ∷ []) h')
        going_on (failed e, h') first rest = first
        going_on (panicked m, h') first rest = first

  deferred_calls :
      {S : Type 0} (tag : String) (op : InboundOperation) (o : Outcome S) (served : List Service)
      (h : History)
      → ((deferred E tag op (o, served, h)).1 ≡ h)
        ⊎ ((deferred E tag op (o, served, h)).1 ≡ (rollback E tag op served h).1)
  unfolding deferred
  deferred_calls tag op (done s) served h = inl refl
  deferred_calls tag op (failed e) served h = inr (ground arith)
  deferred_calls tag op (panicked m) served h = inr (ground arith)

  deferred-Adds :
      {S : Type 0} (tag : String) (op : InboundOperation) (h : History) (r : Served S)
      → Adds (by_user E) h r.2
      → Adds (by_user E) h (deferred E tag op r).1
  deferred-Adds tag op h (o, served, h') before = elim (deferred_calls tag op o served h') [
    | inl same ↦ rw same before
    | inr undone ↦ rw undone (Adds-trans before ((rollback-Makes E tag op served).at h' tt))
  ]

  stored_calls :
      (served : List Service) (r : Reply V2rayUser) (h : History)
      → (stored E served (done r, h)).2 ≡ h
  unfolding stored
  stored_calls served (ok u) h = refl
  stored_calls served (err e) h = refl

  store_nodes-Adds :
      (cr : V2rayUser) (h : History) (r : Served NodeMap)
      → Adds (by_user E) h r.2
      → Adds (by_user E) h (store_nodes E cr r).2
  unfolding store_nodes
  store_nodes-Adds cr h (done nodes, served, h') before =
      rw (attempt-request, stored_calls) (more _ refl before)
  store_nodes-Adds cr h (failed e, served, h') before = before
  store_nodes-Adds cr h (panicked m, served, h') before = before

  finish-Adds :
      (left : V2rayUser) (h : History) (r : Outcome V2rayUser × History)
      → Adds (by_user E) h r.1
      → Adds (by_user E) h (finish E left r).1
  unfolding finish
  finish-Adds left h (done u, h') before = before
  finish-Adds left h (failed e, h') before = before
  finish-Adds left h (panicked m, h') before = before

  add_account-Makes :
      (cr : V2rayUser) (account : Account) (svcs : List Service)
      → Makes (by_user E) E none (add_account E cr account svcs)
  unfolding add_account
  add_account-Makes cr account svcs = record {
    at = λ h now. finish-Adds _ h _ (
        deferred-Adds _ _ h _ (
          store_nodes-Adds cr h _
            (serve_each-Adds _ (λ svc nodes. add_to_svc-Makes E _ _ svc nodes) svcs [] [] h)));
  }

  by_account :
      (cr : V2rayUser) (svcs : List Service) (o : Option Account)
      → account_of cr.spec.inbound_tag cr.spec.user ≡ o
      → Makes (by_user E) E none (add_user_to_v2ray_svc_list E cr svcs)
  unfolding add_user_to_v2ray_svc_list
  by_account cr svcs none unknown = rw (unknown, add_user_to_v2ray_svc_list) (search makes_rules)
  by_account cr svcs (some account) known =
      rw (known, add_user_to_v2ray_svc_list) (add_account-Makes cr account svcs)

  pub add_user-Makes :
      (cr : V2rayUser) (svcs : List Service)
      → Makes (by_user E) E none (add_user_to_v2ray_svc_list E cr svcs)
  add_user-Makes cr svcs = by_account cr svcs _ refl

  announce-Makes :
      (cr : V2rayUser) (o : Outcome (Unit {0})) → Makes (by_user E) E none (announce E cr o)
  unfolding announce
  announce-Makes cr (done u) = search makes_rules
  announce-Makes cr (failed e) = search makes_rules
  announce-Makes cr (panicked m) = search makes_rules

  remove_account-Makes :
      (cr : V2rayUser) (account : Account) → Makes (by_user E) E none (remove_account E cr account)
  unfolding remove_account
  remove_account-Makes cr account = record {
    at = λ h now.
        let ended : Adds (by_user E) h _ = deferred-Adds _ _ h _ (
          serve_each-Adds _ (λ info u. remove_from_svc-Makes E _ _ info u)
            (infos_of cr.spec.node_list) tt [] h) in
        Adds-trans ended ((announce-Makes cr _).at _ tt);
  }

  by_removed :
      (cr : V2rayUser) (o : Option Account)
      → account_of cr.spec.inbound_tag cr.spec.user ≡ o
      → Makes (by_user E) E none (do_finalizer_operations_for_v2ray_user E cr)
  unfolding do_finalizer_operations_for_v2ray_user
  by_removed cr none unknown =
      rw (unknown, do_finalizer_operations_for_v2ray_user) (search makes_rules)
  by_removed cr (some account) known =
      rw (known, do_finalizer_operations_for_v2ray_user) (remove_account-Makes cr account)

  pub finalizer-Makes :
      (cr : V2rayUser) → Makes (by_user E) E none (do_finalizer_operations_for_v2ray_user E cr)
  finalizer-Makes cr = by_removed cr _ refl
