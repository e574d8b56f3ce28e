-- ===== src/Tests/Frees.antt =====
-- A deleted user who is let go.
use v2ray_operator.Prelude.{
  String, true, false, List, [], ◌∷◌, ◌≡◌, refl, keep, ◌==◌, arith, if◌then◌else◌,
}
use v2ray_operator.Api.Meta.{ObjectKey}
use v2ray_operator.Cluster.Effect.{ok}
use v2ray_operator.Cluster.Env.{Env}
use v2ray_operator.Managers.{grpc_port}
use v2ray_operator.User.Server.{svc_config}
use v2ray_operator.User.Add.Succeeds.{Answers}
use v2ray_operator.User.Finalize.Succeeds.{AnswersServices}
use v2ray_operator.User.Reconcile.{finalizer, finalize}
use v2ray_operator.User.Reconcile.Frees.{AnswersUser, Frees, finalize-Frees}
use v2ray_operator.Tests.World.{world, alpha, user, holds, deployment, pod, node}
use v2ray_operator.Tests.Deletion.{served, known}

abbrev key : ObjectKey
key = record { namespace = "vpn"; name = "kim" }

-- One service, and an object that keeps its finalizer.
abbrev tame : Env
tame = record world {
  get_service = λ h k. ok alpha;
  update_user_status =
      λ h u. ok (record u { metadata = record u.metadata { finalizers = finalizer ∷ [] } });
}

holds-keep :
    (fs : List String) (f : String)
    → holds (keep (λ g. if g == f then false else true) fs) f ≡ false
holds-keep [] f = refl
holds-keep (g ∷ fs) f = ground (arith, holds-keep fs f)

tame-Answers : Answers tame
tame-Answers = record {
  dials = λ h addr. refl;
  alters = λ h addr tag op. refl;
  deployments = λ h ns ls. (deployment, [], [], refl, refl);
  pods = λ h ns ls. (pod, [], refl);
  nodes = λ h k. (node, refl);
  updates = λ h u. (u, refl);
}

tame-AnswersServices : AnswersServices tame
unfolding svc_config grpc_port
tame-AnswersServices h name = (alpha, refl, refl)

tame-AnswersUser : AnswersUser tame key
tame-AnswersUser = record {
  reads = λ h. (user [], refl);
  statuses = λ h u. (_, refl, refl, refl);
  removes = λ fs there. (there, holds-keep fs finalizer);
}

finalize-Frees_example : Frees tame (finalize tame key served [])
finalize-Frees_example =
    finalize-Frees tame key tame-Answers tame-AnswersServices tame-AnswersUser served [] known
