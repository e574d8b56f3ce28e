-- ===== src/User/Reconcile/Stuck.antt =====
-- The part of a run from the election on stops, where it elects no service, before the finalizer is
-- looked at, for a deleted object too.
use v2ray_operator.Prelude.{List, [], ◌∷◌, ◌≡◌, refl, ◌∙◌, arith}
use v2ray_operator.Api.Meta.{ObjectKey}
use v2ray_operator.Api.Core.{Service}
use v2ray_operator.Api.User.{V2rayNodeList, V2rayUser}
use v2ray_operator.Prelude.Maps.{Dict}
use v2ray_operator.Cluster.Effect.{Outcome, done, failed, panicked, ◌>>=◌}
use v2ray_operator.Cluster.Requests.{History}
use v2ray_operator.Cluster.Env.{Env}
use v2ray_operator.Cluster.Trace.{alters, user_writes}
use v2ray_operator.User.Add.{with_nodes}
use v2ray_operator.User.Elect.{
  defaulted, slice_to, select, elect_region, elect_each, elect_services_from_affinity,
}
use v2ray_operator.User.Elect.Laws.{alters-elect_each}
use v2ray_operator.User.Reconcile.{ReconcileResult, empty_result, report_no_node, serve_user}

-- The run returned the empty result or an error: it did not ask to be run again on its own.
abbrev pub EmptyOrError : Outcome ReconcileResult → Type 0
EmptyOrError (done r) = r ≡ empty_result
EmptyOrError (failed e) = Unit
EmptyOrError (panicked m) = ⊥

module _ (E : Env) where
  writes-elect_each :
      (nodes : Dict V2rayNodeList) (before : List Service) (h : History)
      → user_writes (elect_each E nodes before h).1 ≡ user_writes h
  unfolding elect_each elect_region select slice_to ◌>>=◌
  writes-elect_each [] before h = refl
  writes-elect_each ((region, nl) ∷ nodes) before h = grind (arith, writes-elect_each nodes)

  report_no_node-quiet :
      (cr : V2rayUser) (h : History)
      → let (r, h') = report_no_node E cr h in
        EmptyOrError r × (user_writes h' ≡ user_writes h) × (alters h' ≡ alters h)
  unfolding report_no_node ◌>>=◌
  report_no_node-quiet cr h = ground arith

  -- The part of a run from the election of the services on, for a deleted object too: where no service
  -- is elected, it asks for no update of the V2rayUser object but of its status, so that it adds or
  -- removes no finalizer, alters no users of a server, and returns the empty result or an error. What a
  -- run does before the election, an update with a new id among it, is not part of this.
  pub serve_user-no_node :
      (key : ObjectKey) (cr : V2rayUser) (h : History) {h1 : History}
      → elect_services_from_affinity E cr.spec.node_list h ≡ (done [], h1)
      → let (r, h') = serve_user E key cr h in
        EmptyOrError r × (user_writes h' ≡ user_writes h) × (alters h' ≡ alters h)
  unfolding serve_user ◌>>=◌ elect_services_from_affinity
  serve_user-no_node key cr h {h1} ran =
      let quiet : alters h1 ≡ alters h = rw ran at (alters-elect_each E cr.spec.node_list [] h) in
      let unwritten : user_writes h1 ≡ user_writes h =
        rw ran at (writes-elect_each cr.spec.node_list [] h) in
      let (result, writes, calls) =
        report_no_node-quiet (with_nodes E cr (defaulted cr.spec.node_list)) h1 in
      rw (ran, serve_user, ◌>>=◌) (result, writes ∙ unwritten, calls ∙ quiet)
