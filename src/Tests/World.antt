-- ===== src/Tests/World.antt =====
-- A cluster of three services, where every call succeeds, and what the tests change in it.
use v2ray_operator.Prelude.{
  String, Bool, true, false, none, some, List, [], ◌∷◌, ◌==◌, ◌≡◌, ◌+◌, keep, if◌then◌else◌,
}
use v2ray_operator.Prelude.Int.{ℤ, pos}
use v2ray_operator.Prelude.Maps.{Dict, text_at}
use v2ray_operator.Api.Meta.{ObjectKey, ObjectMeta, Condition, new_meta}
use v2ray_operator.Api.Core.{Service, Pod, Node}
use v2ray_operator.Api.Deployment.{Deployment, PodSpec}
use v2ray_operator.Api.V2ray.{V2ray}
use v2ray_operator.Api.User.{V2rayNodeInfo, V2rayNodeList, V2rayUser}
use v2ray_operator.Api.Client.{V2rayClient}
use v2ray_operator.V2fly.Structs.{V2rayInstanceConfig}
use v2ray_operator.Cluster.Effect.{Error, Reply, ok, err, Outcome, done, failed, panicked}
use v2ray_operator.Cluster.Requests.{Call, History}
use v2ray_operator.Cluster.Env.{Env}
use v2ray_operator.User.Server.{v2ray_region_label, v2ray_enable_label}
use v2ray_operator.V2ray.Reconcile.Stored.{names}

abbrev pub missing : Error
missing = record { not_found = true; text = "not found" }

abbrev pub refused : Error
refused = record { not_found = false; text = "refused" }

abbrev pub service : String → String → String → Service
service name region ip = record {
  metadata = record (new_meta name "vpn") {
    labels = (v2ray_enable_label, "true") ∷ (v2ray_region_label, region) ∷ [];
  };
  cluster_ip = ip;
  ports = record { name = "web"; port = pos 443 } ∷ record { name = "grpc"; port = pos 10085 } ∷ [];
  selector = [];
}

abbrev pub alpha : Service
alpha = service "alpha" "us" "10.0.0.1"

abbrev pub beta : Service
beta = service "beta" "us" "10.0.0.2"

abbrev pub gamma : Service
gamma = service "gamma" "jp" "10.0.0.3"

abbrev pub services_in : String → List Service
services_in region =
    if region == "us"
    then alpha ∷ beta ∷ []
    else if region == "jp"
    then gamma ∷ []
    else if region == ""
    then alpha ∷ beta ∷ gamma ∷ []
    else []

abbrev pub find : String → Service
find name = if name == "alpha" then alpha else if name == "beta" then beta else gamma

abbrev pub pod : Pod
pod = record { metadata = new_meta "v2ray-0" "vpn"; node_name = "node-1" }

abbrev pub node : Node
node = record {
  metadata = new_meta "node-1" "";
  addresses = record { kind = "InternalIP"; address = "192.168.1.10" } ∷ [];
}

abbrev pub pod_spec : PodSpec
pod_spec = record {
  run_as_non_root = true;
  seccomp_profile = "RuntimeDefault";
  containers = [];
  volumes = [];
}

abbrev pub deployment : Deployment
deployment = record {
  metadata = new_meta "v2ray" "vpn";
  owners = [];
  replicas = some (pos 1);
  match_labels = some [];
  template_labels = [];
  template_spec = pod_spec;
}

abbrev pub info_at : String → V2rayNodeInfo
info_at svc_name = record {
  name = "node-1";
  ip = "192.168.1.10";
  port = pos 443;
  domain = "";
  svc_name = svc_name;
}

abbrev pub nodes_of : ℤ → List V2rayNodeInfo → V2rayNodeList
nodes_of size info = record { size = size; virgin_ip = false; info = info }

abbrev pub user : Dict V2rayNodeList → V2rayUser
user nodes = record {
  metadata = new_meta "kim" "vpn";
  spec = record {
    user = record { id = "0f1e"; level = pos 0; email = "kim@example.org" };
    node_list = nodes;
    inbound_tag = "ws+vless";
    outbound_tag = "direct";
  };
  status = record { conditions = [] };
}

abbrev pub v2ray : V2ray
v2ray = record {
  metadata = new_meta "edge" "vpn";
  spec = record { size = pos 3 };
  status = record { conditions = [] };
}

abbrev pub config : V2rayInstanceConfig
config = record {
  log = record { loglevel = "warning"; access = ""; error = "" };
  inbounds = [];
  outbounds = [];
  transport = none;
  policy = none;
  api = none;
  stats = none;
  routing = none;
}

abbrev pub condition : Condition
condition = record {
  kind = "Available";
  status = v2ray_operator.Api.Meta.condition_true;
  reason = "Reconciling";
  message = "";
}

abbrev pub client : V2rayClient
client = record {
  metadata = new_meta "phone" "vpn";
  spec = record {
    v2ray = some config;
    affinity = some (record {
      regions =
          record { region = "us"; nums = pos 1; virgin_ip = false }
          ∷ record { region = "jp"; nums = pos 4; virgin_ip = false }
          ∷ [];
    });
  };
  status = record { conditions = condition ∷ []; subscription_link = "" };
}

abbrev pub holds : List String → String → Bool
holds [] f = false
holds (g ∷ fs) f = let rest = holds fs f in if g == f then true else rest

-- The API server counts the versions that it stores.
abbrev pub numbered : Deployment → Deployment
numbered d = record d {
  metadata = record d.metadata { resource_version = d.metadata.resource_version + 1 };
}

-- The deployment of that key that was written last.
abbrev pub deployment_at : ObjectKey → History → Reply Deployment
deployment_at k [] = err missing
deployment_at k (Call.create_deployment d ∷ h) =
    let earlier = deployment_at k h in if names k d then ok (numbered d) else earlier
deployment_at k (Call.update_deployment d ∷ h) =
    let earlier = deployment_at k h in if names k d then ok (numbered d) else earlier
deployment_at k (_ ∷ h) = deployment_at k h

abbrev pub world : Env
world = record {
  get_v2ray = λ h k. ok v2ray;
  update_v2ray = λ h v. ok v;
  update_v2ray_status = λ h v. ok v;
  get_user = λ h k. ok (user []);
  update_user = λ h u. ok u;
  update_user_status = λ h u. ok u;
  get_client = λ h k. ok client;
  update_client = λ h c. ok c;
  update_client_status = λ h c. ok c;
  get_deployment = λ h k. deployment_at k h;
  create_deployment = λ h d. ok (numbered d);
  update_deployment = λ h d. ok (numbered d);
  get_service = λ h k. ok (find k.name);
  get_node = λ h k. ok node;
  list_services = λ h ns labels. ok (services_in (text_at v2ray_region_label labels));
  list_deployments = λ h ns labels. ok (deployment ∷ []);
  list_pods = λ h ns labels. ok (pod ∷ []);
  new_uuid = λ h. "7a7a";
  lookup_env = λ name.
      if name == "ENV"
      then some "prod"
      else if name == "V2RAY_IMAGE"
      then some "v2fly/v2ray:v5"
      else none;
  dial = λ h addr. ok tt;
  alter_inbound = λ h addr tag op. ok tt;
  add_inbound = λ h addr c. ok tt;
  remove_inbound = λ h addr tag. ok tt;
  add_outbound = λ h addr c. ok tt;
  remove_outbound = λ h addr tag. ok tt;
  alter_outbound = λ h addr tag op. ok tt;
  query_stats = λ h addr r. ok (record { payload = [] });
  get_sys_stats = λ h addr. ok (record { payload = [] });
  marshal_config = λ c. ok "{}";
  decode_json_config = λ text. err refused;
  set_status_condition = λ cs c. c ∷ cs;
  contains_finalizer = holds;
  add_finalizer = λ fs f. (f ∷ fs, true);
  remove_finalizer = λ fs f. (keep (λ g. if g == f then false else true) fs, holds fs f);
  set_controller_reference = λ cr d. ok (record d { owners = cr.metadata.name ∷ [] });
}

-- Every write of an object is followed by the answer that it had before.
abbrev pub steady : Env
steady = record world { update_v2ray = λ h v. ok v2ray; update_client_status = λ h c. ok client }

-- The servers at one address refuse to alter users.
abbrev pub refusing : String → Env
refusing addr = record world {
  alter_inbound = λ h a tag op. if a == addr then err refused else ok tt;
}

-- The value that a run returned.
abbrev pub value : {A : Type 0} → A → Outcome A → A
value a (done b) = b
value a (failed e) = a
value a (panicked m) = a

pub ok_eq : {A : Type 0} {a b : A} → ok a ≡ ok b → a ≡ b
ok_eq same = cc
