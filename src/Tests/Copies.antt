-- ===== src/Tests/Copies.antt =====
-- Deep copies at concrete memory. Object metadata is here the address of a map of labels, list
-- metadata and conditions are texts.
use v2ray_operator.Prelude.{ℕ, String, false, Option, none, some, List, [], ◌∷◌, refl, arith, ◌≡◌}
use v2ray_operator.Prelude.Int.{pos}
use v2ray_operator.Prelude.Maps.{Dict}
use v2ray_operator.Copies.Heap.{Ref, CellOf, copy_slice}
use v2ray_operator.Copies.Heap.Pointers.{view_value, Deep-value}
use v2ray_operator.Copies.Heap.Slices.{view_slice, Deep-slice}
use v2ray_operator.Copies.Heap.Writes.{Independent}
use v2ray_operator.Copies.Heap.{pure, set}
use v2ray_operator.Api.User.{V2rayUserInfo, V2rayNodeInfo}
use v2ray_operator.Copies.Structs.{
  TypeMeta, V2rayInboundConfig, V2rayOutboundConfig, V2rayRoutingRulesConfig, V2rayInstanceConfig,
}
use v2ray_operator.Copies.Cells.{
  Foreign, Cell, users, user_list, nodes, node_list, node_infos, conditions, other, clients,
  client_list, config, inbounds, routing, affinity, regions,
}
use v2ray_operator.Copies.Cells.Users.{user_list_cell}
use v2ray_operator.Copies.Cells.Clients.{client_list_cell}
use v2ray_operator.Copies.Machinery.{Machinery, CopiesDeeply, Object, as_object}
use v2ray_operator.Copies.V2rayUserList
use v2ray_operator.Copies.V2rayClientList
use v2ray_operator.Copies.V2rayInstanceConfig as Config
use v2ray_operator.Copies.Independent.{user_list-Independent, client_list-Independent}
use v2ray_operator.Copies.Shared.{routing_shared, routing_at}

abbrev foreign : Foreign
foreign = record { ObjectMeta = Ref; ListMeta = String; Condition = String; Other = Dict String }

abbrev as_labels : Cell foreign → Option (Dict String)
as_labels (other labels) = some labels
as_labels held = none

instance abbrev labels_cell : CellOf (Cell foreign) (Dict String)
labels_cell = record { inject = other; project = as_labels; project-inject = λ x. refl }

abbrev machinery : Machinery foreign
machinery = record {
  Meta = Option (Dict String);
  Listing = String;
  Report = String;
  view_meta = view_slice (String × String);
  view_list_meta = view_value;
  view_condition = view_value;
  copy_meta = copy_slice (String × String);
  copy_list_meta = pure;
  copy_condition = pure;
}

machinery_copies : CopiesDeeply machinery
machinery_copies = record {
  meta = Deep-slice (String × String);
  list_meta = Deep-value;
  condition = Deep-value;
}

abbrev a_node : V2rayNodeInfo
a_node = record {
  name = "alpha";
  ip = "10.0.0.1";
  port = pos 443;
  domain = "alpha.example.com";
  svc_name = "v2ray-alpha";
}

abbrev an_account : V2rayUserInfo
an_account = record { id = "uuid"; level = pos 1; email = "someone@example.com" }

abbrev type_meta : TypeMeta
type_meta = record { kind = "V2rayUser"; api_version = "v1alpha1" }

-- A list of one user with a node list in one region and nil in another.
abbrev user_memory : List (Cell foreign)
user_memory =
    user_list (record { type_meta = type_meta; list_meta = "page 1"; items = some 1 })
    ∷ users (
        record {
          type_meta = type_meta;
          object_meta = some 6;
          spec = record {
            user = an_account;
            node_list = some 2;
            inbound_tag = "ws+vmess";
            outbound_tag = "freedom";
          };
          status = record { conditions = some 5 };
        }
        ∷ [])
    ∷ nodes (("us", some 3) ∷ ("jp", none) ∷ [])
    ∷ node_list (record { size = pos 1; virgin_ip = false; info = some 4 })
    ∷ node_infos (a_node ∷ [])
    ∷ conditions ("Available" ∷ [])
    ∷ other (("app", "v2ray") ∷ [])
    ∷ []

abbrev user_value : V2rayUserList.Value machinery
user_value = record {
  type_meta = type_meta;
  list_meta = "page 1";
  items = some (
      record {
        type_meta = type_meta;
        object_meta = some (("app", "v2ray") ∷ []);
        spec = record {
          user = an_account;
          node_list = some (
              ("us", some (record { size = pos 1; virgin_ip = false; info = some (a_node ∷ []) }))
              ∷ ("jp", none)
              ∷ []);
          inbound_tag = "ws+vmess";
          outbound_tag = "freedom";
        };
        status = record { conditions = some ("Available" ∷ []) };
      }
      ∷ []);
}

-- The node list of the original is emptied, and a cell of the copy becomes another.
user_list-Independent_example :
    (q : Ref) × (h' : List (Cell foreign)) × (V2rayUserList.deep_copy_object machinery
        (some 0)
        user_memory
      ≡ some (as_object Object.v2ray_user_list q, h'))
    × Independent
        (V2rayUserList.view machinery)
        user_memory
        h'
        (some 0)
        q
        (some user_value)
        ((4, node_infos []) ∷ [])
        ((9, conditions []) ∷ [])
user_list-Independent_example =
    user_list-Independent machinery machinery_copies user_memory (some 0) (some user_value)
      ((4, node_infos []) ∷ []) ((9, conditions []) ∷ []) refl (omega arith, tt) (omega arith, tt)

abbrev a_config : V2rayInstanceConfig Ref Ref
a_config = record {
  log = record { loglevel = "info"; access = ""; error = "" };
  inbounds = some 1;
  outbounds = none;
  transport = none;
  policy = none;
  api = none;
  stats = none;
  routing = some 2;
}

abbrev an_inbound : V2rayInboundConfig
an_inbound = record {
  tag = "ws+vmess";
  port = pos 443;
  protocol = "vmess";
  settings = none;
  stream_settings = none;
  listen = "";
}

abbrev rules : V2rayRoutingRulesConfig
rules = record { settings = none; strategy = "rules" }

abbrev client_memory : List (Cell foreign)
client_memory =
    config a_config
    ∷ inbounds (an_inbound ∷ [])
    ∷ routing rules
    ∷ regions (record { region = "us"; nums = pos 2; virgin_ip = false } ∷ [])
    ∷ affinity (record { regions = some 3 })
    ∷ clients (
        record {
          type_meta = type_meta;
          object_meta = none;
          spec = record { v2ray = some 0; affinity = some 4 };
          status = record { conditions = none; subscription_link = "link" };
        }
        ∷ [])
    ∷ client_list (record { type_meta = type_meta; list_meta = ""; items = some 5 })
    ∷ []

abbrev config_value :
    V2rayInstanceConfig (Option (List V2rayInboundConfig)) (Option (List V2rayOutboundConfig))
config_value = record {
  log = record { loglevel = "info"; access = ""; error = "" };
  inbounds = some (an_inbound ∷ []);
  outbounds = none;
  transport = none;
  policy = none;
  api = none;
  stats = none;
  routing = some 2;
}

abbrev client_value : V2rayClientList.Value machinery
client_value = record {
  type_meta = type_meta;
  list_meta = "";
  items = some (
      record {
        type_meta = type_meta;
        object_meta = none;
        spec = record {
          v2ray = some config_value;
          affinity = some (record {
            regions = some (record { region = "us"; nums = pos 2; virgin_ip = false } ∷ []);
          });
        };
        status = record { conditions = none; subscription_link = "link" };
      }
      ∷ []);
}

client_list-Independent_example :
    (q : Ref) × (h' : List (Cell foreign)) × (V2rayClientList.deep_copy_object machinery
        (some 6)
        client_memory
      ≡ some (as_object Object.v2ray_client_list q, h'))
    × Independent
        (V2rayClientList.view machinery)
        client_memory
        h'
        (some 6)
        q
        (some client_value)
        ((3, regions []) ∷ [])
        ((8, inbounds []) ∷ [])
client_list-Independent_example =
    client_list-Independent machinery machinery_copies client_memory (some 6) (some client_value)
      ((3, regions []) ∷ []) ((8, inbounds []) ∷ []) refl (omega arith, tt) (omega arith, tt)

routing_shared_example :
    (q : ℕ) × (h' : List (Cell foreign)) × (Config.deep_copy (some 0) client_memory
      ≡ some (some q, h'))
    × (routing_at h' q ≡ some rules)
    × (routing_at (set h' 2 (routing (record rules { strategy = "none" }))) q
        ≡ some (record rules { strategy = "none" }))
routing_shared_example =
    routing_shared client_memory 0 2 a_config config_value rules
      (record rules { strategy = "none" }) refl refl refl refl
