-- ===== src/User/Reconcile/Calls.antt =====
-- The calls that a run of the V2rayUser controller makes.
use v2ray_operator.Prelude.{List, [], ◌∷◌, none, some, Option}
use v2ray_operator.Prelude.Int.{ℤ, pos, negsuc}
use v2ray_operator.Prelude.Maps.{Dict}
use v2ray_operator.Api.Meta.{ObjectKey}
use v2ray_operator.Api.Core.{Service}
use v2ray_operator.Api.User.{V2rayNodeList, V2rayUser}
use v2ray_operator.Cluster.Effect.{Error, Reply, ok, err}
use v2ray_operator.Cluster.Requests.{History}
use v2ray_operator.Cluster.Env.{Env}
use v2ray_operator.Cluster.Adds.{Adds}
use v2ray_operator.Cluster.Makes.{Makes, makes_rules}
use v2ray_operator.User.Elect.{
  slice_to, select, elect_region, elect_each, elect_services_from_affinity,
}
use v2ray_operator.User.Add.{Added}
use v2ray_operator.User.Calls.{by_user}
use v2ray_operator.User.Calls.Whole.{add_user-Makes, finalizer-Makes}
use v2ray_operator.User.Reconcile.{
  init_status, ensure_id, report_no_node, report_add_failed, release, finalize, report_available,
  settle_user, add_finalizer_then_settle, after_add, serve_user, reconcile_found, fetched,
  reconcile,
}

module _ (E : Env) where
  slice_to-Makes :
      (size : ℤ) (items : List Service) → Makes (by_user E) E none (slice_to size items)
  unfolding slice_to
  slice_to-Makes (pos n) items = search makes_rules
  slice_to-Makes (negsuc n) items = search makes_rules

  select-Makes :
      (size : ℤ) (found : Reply (List Service)) → Makes (by_user E) E none (select size found)
  unfolding select
  select-Makes size (err e) = search makes_rules
  select-Makes size (ok []) = search makes_rules
  select-Makes size (ok (item ∷ items)) = slice_to-Makes _ (item ∷ items)

  elect_each-Makes :
      (nodes : Dict V2rayNodeList) (elected : List Service)
      → Makes (by_user E) E none (elect_each E nodes elected)
  unfolding elect_each elect_region
  elect_each-Makes [] elected = search makes_rules
  elect_each-Makes ((region, nl) ∷ nodes) elected =
      search (makes_rules, select-Makes, elect_each-Makes nodes) depth 12

  init_status-Makes :
      (key : ObjectKey) (cr : V2rayUser) → Makes (by_user E) E none (init_status E key cr)
  unfolding init_status
  init_status-Makes key cr = search makes_rules depth 12

  ensure_id-Makes :
      (key : ObjectKey) (cr : V2rayUser) → Makes (by_user E) E none (ensure_id E key cr)
  unfolding ensure_id
  ensure_id-Makes key cr = search makes_rules depth 16

  finalize-Makes : (key : ObjectKey) (cr : V2rayUser) → Makes (by_user E) E none (finalize E key cr)
  unfolding finalize release
  finalize-Makes key cr = search (makes_rules, finalizer-Makes) depth 20

  settle-Makes :
      (key : ObjectKey) (cr : V2rayUser) → Makes (by_user E) E none (settle_user E key cr)
  unfolding settle_user report_available
  settle-Makes key cr = search (makes_rules, finalize-Makes) depth 16

  add_finalizer-Makes :
      (key : ObjectKey) (cr : V2rayUser)
      → Makes (by_user E) E none (add_finalizer_then_settle E key cr)
  unfolding add_finalizer_then_settle
  add_finalizer-Makes key cr = search (makes_rules, settle-Makes) depth 16

  after_error-Makes :
      (key : ObjectKey) (error : Option Error) (user : V2rayUser)
      → Makes (by_user E) E none (after_add E key (record { error = error; user = user }))
  unfolding after_add report_add_failed
  after_error-Makes key none user = search (makes_rules, add_finalizer-Makes) depth 16
  after_error-Makes key (some e) user = search makes_rules depth 16

  after_add-Makes :
      (key : ObjectKey) (added : Added) → Makes (by_user E) E none (after_add E key added)
  after_add-Makes key added = after_error-Makes key added.error added.user

  serve_user-Makes :
      (key : ObjectKey) (cr : V2rayUser) → Makes (by_user E) E none (serve_user E key cr)
  unfolding serve_user elect_services_from_affinity report_no_node
  serve_user-Makes key cr =
      search (makes_rules, elect_each-Makes, add_user-Makes, after_add-Makes) depth 16

  fetched-Makes :
      (key : ObjectKey) (found : Reply V2rayUser) → Makes (by_user E) E none (fetched E key found)
  unfolding fetched reconcile_found
  fetched-Makes key (ok cr) =
      search (makes_rules, init_status-Makes, ensure_id-Makes, serve_user-Makes) depth 16
  fetched-Makes key (err e) = search makes_rules

  reconcile-Makes : (key : ObjectKey) → Makes (by_user E) E none (reconcile E key)
  unfolding reconcile
  reconcile-Makes key = search (makes_rules, fetched-Makes) depth 16

  -- Whatever is answered, a run of the V2rayUser controller writes only V2rayUser objects, reads
  -- those, services, deployments, pods and nodes, and records events; its only requests to v2ray
  -- servers alter users, each behind a connection to that server.
  pub reconcile-by_user : (key : ObjectKey) (h : History) → Adds (by_user E) h (reconcile E key h).1
  reconcile-by_user key h = (reconcile-Makes key).at h tt
