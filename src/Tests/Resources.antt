-- ===== src/Tests/Resources.antt =====
-- The deployment of a V2ray resource, its labels, and a client's configuration.
use v2ray_operator.Prelude.{
  String, none, some, Option, arith, true, false, Bool-cases, inl, inr, if◌then◌else◌, List, [],
  ◌∷◌, ◌≡◌, refl,
}
use v2ray_operator.Prelude.Int.{pos}
use v2ray_operator.Prelude.Maps.{lookup, text_at}
use v2ray_operator.Prelude.Text.{contains, has_prefix, split, itoa, to_lower}
use v2ray_operator.Api.Meta.{ObjectKey}
use v2ray_operator.Api.Core.{Service}
use v2ray_operator.Api.Deployment.{Deployment}
use v2ray_operator.Api.Client.{V2rayNodeAffinity}
use v2ray_operator.V2fly.Config.{server_addr, to_v2ray_v4_config}
use v2ray_operator.Cluster.Effect.{Error, Reply, failed, ok, err, Outcome, done, ◌>>=◌}
use v2ray_operator.Cluster.Requests.{Call, History}
use v2ray_operator.Cluster.Trace.{panics}
use v2ray_operator.Cluster.Env.{Env}
use v2ray_operator.User.Server.{v2ray_namespace, svc_config}
use v2ray_operator.Managers.{env, grpc_port}
use v2ray_operator.V2fly.Config.Addresses.{server_addr-injective}
use v2ray_operator.User.Reconcile.{ReconcileResult}
use v2ray_operator.V2ray.Image.{
  image_for_v2ray, image_tag, labels_for_v2ray, new_deployment, deployment_for_v2ray,
}
use v2ray_operator.V2ray.Image.Panics.{panics-labels_for_v2ray}
use v2ray_operator.V2ray.Reconcile.{
  ensure_deployment, deployed, create, create_with, after_a_minute,
}
use v2ray_operator.V2ray.Reconcile.Stored.{names, stored, OfReplicas, KeepsDeployment}
use v2ray_operator.Client.Elect.{elect_services_from_affinity}
use v2ray_operator.Client.Elect.Quota.{of_region, quota, last_num, elect-of_region}
use v2ray_operator.V2fly.Grpc.{V2rayGrpcApi, error_of, remove_inbound}
use v2ray_operator.V2fly.Grpc.Remove.{remove_inbound-empty_tag}
use v2ray_operator.Cluster.Env.{V4Config}
use v2ray_operator.Tests.World.{
  world, steady, numbered, deployment_at, alpha, beta, gamma, v2ray, config, refused,
}

abbrev key : ObjectKey
key = record { namespace = "vpn"; name = "edge" }

-- The answer shows what is stored.
abbrev Shows : ObjectKey → Reply Deployment → Option Deployment → Type 0
Shows k (ok d) (some d') = (d' ≡ d) × (names k d ≡ true)
Shows k (err e) none = Unit
Shows k _ _ = ⊥

written :
    (k : ObjectKey) (d : Deployment) (r : Reply Deployment) (o : Option Deployment)
    → Shows k r o
    → Shows k
        (if names k d then ok (numbered d) else r)
        (if names k d then some (numbered d) else o)
written k d r o s = elim (Bool-cases (names k d)) [
  | inl same ↦ rw same (refl, same)
  | inr other ↦ rw other s
]

shows : (k : ObjectKey) (h : History) → Shows k (deployment_at k h) (stored steady k none h)
shows k [] = tt
shows k (Call.create_deployment d ∷ h) = written k d _ _ (shows k h)
shows k (Call.update_deployment d ∷ h) = written k d _ _ (shows k h)
shows k (c ∷ h) = shows k h

read_as :
    (k : ObjectKey) (r : Reply Deployment) (o : Option Deployment) (d : Deployment)
    → Shows k r o
    → r ≡ ok d
    → OfReplicas d.replicas o × (names k d ≡ true)
read_as k (ok c) (some d') d s e = ground arith
read_as k (ok c) none d s e = absurd s
read_as k (err e') o d s e = cc

missing_as :
    (k : ObjectKey) (r : Reply Deployment) (o : Option Deployment) (e : Error)
    → Shows k r o
    → r ≡ err e
    → o ≡ none
missing_as k (ok c) o e s r = cc
missing_as k (err e') (some d) e s r = absurd s
missing_as k (err e') none e s r = refl

pub steady-KeepsDeployment : (k : ObjectKey) → KeepsDeployment steady k none
steady-KeepsDeployment k = record {
  reads = λ h d found. read_as k _ _ d (shows k h) found;
  missing = λ h e found gone. missing_as k _ _ e (shows k h) found;
  creates = λ h d d' n answer sized. cc;
  updates = λ h d d' n answer sized. cc;
  owner_keeps = λ cr d d' set. (cc, cc);
}

abbrev pub run : Outcome ReconcileResult × History
run = ensure_deployment steady key v2ray []

pub run_done : run ≡ (done after_a_minute, run.1)
unfolding ensure_deployment deployed create create_with deployment_for_v2ray labels_for_v2ray
    image_tag image_for_v2ray new_deployment split ◌>>=◌
run_done = refl

-- An image without a version.
abbrev untagged : Env
untagged = record world { lookup_env = λ name. some "v2fly/v2ray" }

panics-labels_for_v2ray_example : panics (labels_for_v2ray untagged "edge" []).0 ≡ true
unfolding contains has_prefix
panics-labels_for_v2ray_example = panics-labels_for_v2ray untagged "edge" "v2fly/v2ray" [] refl

abbrev affinity : V2rayNodeAffinity
affinity = record {
  regions =
      record { region = "us"; nums = pos 1; virgin_ip = false }
      ∷ record { region = "jp"; nums = pos 4; virgin_ip = false }
      ∷ [];
}

world_lists :
    world.list_services [] v2ray_namespace (("v2ray.hdcjh.xyz/enable", "true") ∷ [])
    ≡ ok (alpha ∷ beta ∷ gamma ∷ [])
unfolding text_at lookup
world_lists = refl

elect-of_region_example :
    (svcs : List Service) × (elect_services_from_affinity world (some affinity) [] ≡ (
      done svcs,
      Call.list_services v2ray_namespace (("v2ray.hdcjh.xyz/enable", "true") ∷ []) ∷ [],
    ))
    × ((region : String)
        → of_region region svcs
          ≡ quota
              (last_num region affinity.regions none)
              (of_region region (alpha ∷ beta ∷ gamma ∷ [])))
elect-of_region_example = elect-of_region world affinity (alpha ∷ beta ∷ gamma ∷ []) [] world_lists

-- The second of two inbounds has no tag.
abbrev detours : V4Config
detours = record {
  inbound_configs =
      record { tag = "ws+vless"; build = err refused }
      ∷ record { tag = ""; build = err refused }
      ∷ [];
  outbound_configs = [];
}

abbrev decoding : Env
decoding = record world { decode_json_config = λ text. ok detours }

abbrev api : V2rayGrpcApi
api = record { config = record { host = "10.0.0.1"; port = pos 10085 } }

untagged_stays :
    remove_inbound decoding api config []
    ≡ (failed (error_of "V2rayGrpcApi.RemoveInbound empty inbound tag detected"), [])
unfolding to_v2ray_v4_config
untagged_stays = remove_inbound-empty_tag decoding api config detours [] refl refl

-- The address of the first service's server is that of no other server.
server_addr-injective_example :
    svc_config world alpha ≡ record { host = "10.0.0.1"; port = pos 10085 }
unfolding svc_config grpc_port server_addr env to_lower itoa
server_addr-injective_example =
    server_addr-injective (svc_config world alpha) (record { host = "10.0.0.1"; port = pos 10085 })
      refl
