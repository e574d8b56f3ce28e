-- ===== src/User/Add/Nodes.antt =====
-- The node list that `addUserToV2raySvcList` stores.
use v2ray_operator.Prelude.{String, List, [], ◌∷◌, ◌++◌, ◌≡◌, refl, ◌∙◌, none, some}
use mathlib.Core.List.{append-nil, append_assoc}
use v2ray_operator.Prelude.Maps.{lookup}
use v2ray_operator.Api.Core.{Service}
use v2ray_operator.Api.User.{V2rayNodeInfo, V2rayUser}
use v2ray_operator.Cluster.Effect.{ok, Outcome, done, failed, panicked}
use v2ray_operator.Cluster.Requests.{Account, ProtocolUser, Call, History}
use v2ray_operator.Cluster.Env.{Env}
use v2ray_operator.Cluster.Yields.{IfDone, Yields, Yields-pure, Yields-any, Yields-bind}
use v2ray_operator.User.Server.{account_of}
use v2ray_operator.User.Rollback.{Served, serve_each}
use v2ray_operator.User.Add.Fine.{IfFine, Stores, finish-IfFine}
use v2ray_operator.User.Add.Regions.{
  names_at, names_in, name_of, Sizeless, names_at-note_node, note_node-Sizeless, names_in_cons,
}
use v2ray_operator.User.Add.{
  NodeMap, Added, region_of, note_node, node_info, find_node, add_to_svc, with_nodes, add_account,
  add_user_to_v2ray_svc_list,
}

-- A round notes one node, under the region and the name of its service.
abbrev NotesNode : Service → NodeMap → Service × NodeMap → Type 0
NotesNode svc nodes p =
    (info : V2rayNodeInfo) × (p.1 ≡ note_node (region_of svc) info nodes)
    × (info.svc_name ≡ name_of svc)

module _ (E : Env) where
  find_node-Yields :
      (svc : Service)
      → Yields (λ (info : V2rayNodeInfo). info.svc_name ≡ name_of svc) (find_node E svc)
  unfolding find_node node_info
  find_node-Yields svc = Yields-bind _ _ (Yields-any _) λ deps _.
      Yields-bind _ _ (Yields-any _) λ dep _. Yields-bind _ _ (Yields-any _) λ labels _.
        Yields-bind _ _ (Yields-any _) λ pods _.
          Yields-bind _ _ (Yields-any _)
            λ pod _. Yields-bind _ _ (Yields-any _) λ node _. Yields-pure _ refl

  add_to_svc-Yields :
      (tag : String) (user : ProtocolUser) (svc : Service) (nodes : NodeMap)
      → Yields (NotesNode svc nodes) (add_to_svc E tag user svc nodes)
  unfolding add_to_svc
  add_to_svc-Yields tag user svc nodes = Yields-bind _ _ (Yields-any _) λ cli _.
      Yields-bind _ _ (Yields-any _)
        λ _ _. Yields-bind _ _ (find_node-Yields svc) λ info same. Yields-pure _ (info, refl, same)

  module _ (tag : String) (user : ProtocolUser) where
    -- What the loop makes of the nodes noted so far.
    record Noted (svcs : List Service) (start nodes : NodeMap) : Type 0 where
      names : (r : String) → names_at r nodes ≡ names_at r start ++ names_in r svcs
      sizeless : Sizeless start → Sizeless nodes

    abbrev LoopNotes : List Service → NodeMap → Served NodeMap → Type 0
    LoopNotes svcs start (done nodes, served, h) = Noted svcs start nodes
    LoopNotes svcs start (failed e, served, h) = Unit
    LoopNotes svcs start (panicked m, served, h) = Unit

    noted_later :
        (svc : Service) (svcs : List Service) (start : NodeMap) (p : Service × NodeMap)
        (r : Served NodeMap)
        → NotesNode svc start p
        → LoopNotes svcs p.1 r
        → LoopNotes (svc ∷ svcs) start r
    noted_later svc svcs start p (done nodes, served, h) (info, same, named) n = record {
      names = λ r.
          n.names r
          ∙ rw (same, names_at-note_node, named, names_in_cons)
              (append_assoc (names_at r start) _ _);
      sizeless = λ s. n.sizeless (rw same (note_node-Sizeless (region_of svc) info start s));
    }
    noted_later svc svcs start p (failed e, served, h) w n = tt
    noted_later svc svcs start p (panicked e, served, h) w n = tt

    serve_each-LoopNotes :
        (svcs : List Service) (start : NodeMap) (served : List Service) (h : History)
        → LoopNotes svcs start (serve_each (add_to_svc E tag user) svcs start served h)
    unfolding serve_each
    serve_each-LoopNotes [] start served h = record {
      names = λ r. rw append-nil;
      sizeless = λ s. s;
    }
    serve_each-LoopNotes (svc ∷ svcs) start served h =
        round_then (add_to_svc E tag user svc start h) ((add_to_svc-Yields tag user svc start).at h)
          (serve_each-LoopNotes svcs)
      where
        round_then :
            (r : Outcome (Service × NodeMap) × History)
            → IfDone (NotesNode svc start) r.0
            → ((start' : NodeMap) (served' : List Service) (h' : History)
                → LoopNotes svcs start' (serve_each (add_to_svc E tag user) svcs start' served' h'))
            → LoopNotes (svc ∷ svcs) start (elim r.0 [
              | done p ↦ serve_each (add_to_svc E tag user) svcs p.1 (served ++ p.0 ∷ []) r.1
              | failed e ↦ (failed e, served, r.1)
              | panicked p ↦ (panicked p, served, r.1)
            ])
        round_then (done p, h') w more = noted_later svc svcs start p _ w (more p.1 _ h')
        round_then (failed e, h') w more = tt
        round_then (panicked m, h') w more = tt

  -- The last call of a run without an error stores the nodes of the elected services.
  pub record StoresNodes (cr : V2rayUser) (svcs : List Service) (user : V2rayUser) (h : History)
      : Type 0 where
    pub nodes : NodeMap
    pub earlier : History
    pub last_call : h ≡ Call.update_user (with_nodes E cr nodes) ∷ earlier
    pub answer : E.update_user earlier (with_nodes E cr nodes) ≡ ok user
    pub names : (r : String) → names_at r nodes ≡ names_in r svcs
    pub sizeless : Sizeless nodes

  Stores-noted :
      (cr : V2rayUser) (svcs : List Service) (tag : String) (user : ProtocolUser)
      (r : Served NodeMap)
      → LoopNotes tag user svcs [] r
      → Stores E cr (λ u h. StoresNodes cr svcs u h) r
  unfolding lookup
  Stores-noted cr svcs tag user (done nodes, served, h) n = λ u answer. record {
    nodes = nodes;
    earlier = h;
    last_call = refl;
    answer = answer;
    names = n.names;
    sizeless = n.sizeless tt;
  }
  Stores-noted cr svcs tag user (failed e, served, h) n = tt
  Stores-noted cr svcs tag user (panicked m, served, h) n = tt

  add_user-IfFine :
      (cr : V2rayUser) {account : Account} (svcs : List Service) (h : History)
      → account_of cr.spec.inbound_tag cr.spec.user ≡ some account
      → IfFine (λ u h. StoresNodes cr svcs u h) (add_user_to_v2ray_svc_list E cr svcs h)
  unfolding add_user_to_v2ray_svc_list add_account
  add_user-IfFine cr svcs h known =
      rw (known, add_user_to_v2ray_svc_list)
        (finish-IfFine E cr _ _ _ _ _
          (Stores-noted cr svcs _ _ _ (serve_each-LoopNotes _ _ svcs [] [] h)))

  -- Where the inbound tag is known and the run reports no error, its last call stores a node list
  -- that names, for each region, exactly the elected services with that region's label, in their
  -- order. No region of it has a size: the sizes that the resource asked for are gone.
  pub add_user-StoresNodes :
      (cr : V2rayUser) (svcs : List Service) (h : History) {account : Account} {added : Added}
      {h' : History}
      → account_of cr.spec.inbound_tag cr.spec.user ≡ some account
      → add_user_to_v2ray_svc_list E cr svcs h ≡ (done added, h')
      → added.error ≡ none
      → StoresNodes cr svcs added.user h'
  add_user-StoresNodes cr svcs h known ran fine =
      let s : IfFine (λ u h. StoresNodes cr svcs u h) (done _, _) =
        rw ran at (add_user-IfFine cr svcs h known) in
      s fine
