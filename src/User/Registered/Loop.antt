-- ===== src/User/Registered/Loop.antt =====
-- What the loops of registration and of the finalizer leave on the servers.
use v2ray_operator.Prelude.{
  String, Bool, true, false, ◌||◌, List, [], ◌∷◌, ◌++◌, map, ◌≡◌, refl, if◌then◌else◌, arith,
  eq_refl,
}
use v2ray_operator.Api.Core.{Service}
use v2ray_operator.V2fly.Grpc.{V2rayGrpcApi, new_v2ray_grpc_api, labelled}
use v2ray_operator.Cluster.Effect.{Outcome, done, failed, panicked, M, ◌>>=◌}
use v2ray_operator.Cluster.Requests.{ProtocolUser, InboundOperation, add_user, remove_user, History}
use v2ray_operator.Cluster.Env.{Env}
use v2ray_operator.User.Server.{svc_config, svc_addr, get_v2ray_grpc_client_from_svc}
use v2ray_operator.User.Rollback.{Served, serve_each}
use v2ray_operator.User.Add.{NodeMap, selected, find_node, first_or, add_to_svc}
use v2ray_operator.Api.User.{V2rayNodeInfo}
use v2ray_operator.User.Finalize.{remove_from_svc}
use v2ray_operator.User.Finalize.Atomic.{StableServices, svc_of}
use v2ray_operator.User.Registered.{
  email_of, holds_after, concerns, registered, Honest, DoneWith, DoneWith-alter_inbound,
}

module _ (E : Env) (start : Bool) (addr tag email : String) where
  -- What getting a client leaves: the servers as they were, and a client for the service's address.
  abbrev ClientKeeps : Service → History → Outcome V2rayGrpcApi × History → Type 0
  ClientKeeps svc h (done api, h') =
      (api.config ≡ svc_config E svc)
      × (registered E start addr tag email h' ≡ registered E start addr tag email h)
  ClientKeeps svc h (failed e, h') = Unit
  ClientKeeps svc h (panicked m, h') = Unit

  get_client-ClientKeeps :
      (svc : Service) (h : History) → ClientKeeps svc h (get_v2ray_grpc_client_from_svc E svc h)
  unfolding get_v2ray_grpc_client_from_svc new_v2ray_grpc_api ◌>>=◌
  get_client-ClientKeeps svc h = ground arith

  registered-find_node :
      (svc : Service) (h : History)
      → registered E start addr tag email (find_node E svc h).1
        ≡ registered E start addr tag email h
  unfolding find_node first_or selected ◌>>=◌
  registered-find_node svc h = ground arith

  pub add_to_svc-DoneWith :
      (t : String) (user : ProtocolUser) (svc : Service) (nodes : NodeMap) (h : History)
      → Honest E start addr tag email
      → DoneWith E start addr tag email
          (if concerns E start addr tag email (svc_addr E svc) t (add_user user)
            then true
            else registered E start addr tag email h)
          (add_to_svc E t user svc nodes h)
  unfolding add_to_svc labelled ◌>>=◌ svc_addr
  add_to_svc-DoneWith t user svc nodes h honest = grind (
    arith,
    get_client-ClientKeeps svc h,
    DoneWith-alter_inbound E start addr tag email,
    registered-find_node svc,
    honest,
  )

  pub remove_from_svc-DoneWith :
      (find : String → Service)
      → StableServices E find
      → (t m : String) (info : V2rayNodeInfo) (u : Unit {0}) (h : History)
      → Honest E start addr tag email
      → DoneWith E start addr tag email
          (if concerns E start addr tag email (svc_addr E (svc_of E find info)) t (remove_user m)
            then false
            else registered E start addr tag email h)
          (remove_from_svc E t m info u h)
  unfolding remove_from_svc ◌>>=◌ svc_addr
  remove_from_svc-DoneWith find stable t m info u h honest = grind (
    arith,
    stable h info.svc_name,
    get_client-ClientKeeps (svc_of E find info),
    DoneWith-alter_inbound E start addr tag email,
    honest,
  )

  -- One of the services is the server at the address.
  abbrev pub one_concerns : String → InboundOperation → List Service → Bool
  one_concerns t op [] = false
  one_concerns t op (svc ∷ svcs) =
      let rest = one_concerns t op svcs in
      concerns E start addr tag email (svc_addr E svc) t op || rest

  -- A service of the list is among those reached.
  pub one_concerns-elected :
      (op : InboundOperation) (earlier : List Service) (svc : Service) (later : List Service)
      → addr ≡ svc_addr E svc
      → email_of op ≡ email
      → one_concerns tag op (earlier ++ svc ∷ later) ≡ true
  one_concerns-elected op [] svc later here its =
      rw here (rw its (ground (arith, eq_refl (svc_addr E svc), eq_refl tag, eq_refl email)))
  one_concerns-elected op (other ∷ earlier) svc later here its =
      ground (arith, one_concerns-elected op earlier svc later here its)

  abbrev pub ServedWith : {S : Type 0} → Bool → Served S → Type 0
  ServedWith b (done s, served, h) = registered E start addr tag email h ≡ b
  ServedWith b (failed e, served, h) = Unit
  ServedWith b (panicked m, served, h) = Unit

if_or : (a b v r : Bool) → (if a || b then v else r) ≡ (if b then v else (if a then v else r))
if_or true true v r = refl
if_or true false v r = refl
if_or false true v r = refl
if_or false false v r = refl

module _ (E : Env) (start : Bool) (addr tag email t : String) (op : InboundOperation) {X S : Type 0}
    (target : X → Service) (step : X → S → M (Service × S))
    (round : (x : X) (s : S) (h : History)
      → DoneWith E start addr tag email
          (if concerns E start addr tag email (svc_addr E (target x)) t op
            then holds_after op
            else registered E start addr tag email h)
          (step x s h)) where
  pub serve_each-ServedWith :
      (xs : List X) (s : S) (served : List Service) (h : History)
      → ServedWith E start addr tag email
          (if one_concerns E start addr tag email t op (map target xs)
            then holds_after op
            else registered E start addr tag email h)
          (serve_each step xs s served h)
  unfolding serve_each
  serve_each-ServedWith [] s served h = refl
  serve_each-ServedWith (x ∷ xs) s served h =
      after (step x s h) (round x s h) (serve_each-ServedWith xs)
    where
      after :
          (r : Outcome (Service × S) × History)
          → DoneWith E start addr tag email
              (if concerns E start addr tag email (svc_addr E (target x)) t op
                then holds_after op
                else registered E start addr tag email h)
              r
          → ((s : S) (served : List Service) (h : History)
              → ServedWith E start addr tag email
                  (if one_concerns E start addr tag email t op (map target xs)
                    then holds_after op
                    else registered E start addr tag email h)
                  (serve_each step xs s served h))
          → let all : Served S = elim r.0 [
            | done p ↦ serve_each step xs p.1 (served ++ p.0 ∷ []) r.1
            | failed e ↦ (failed e, served, r.1)
            | panicked m ↦ (panicked m, served, r.1)
          ] in
            ServedWith E start addr tag email
              (if one_concerns E start addr tag email t op (map target (x ∷ xs))
                then holds_after op
                else registered E start addr tag email h)
              all
      after (done p, h') first more = rw if_or (rw first at (more p.1 (served ++ p.0 ∷ []) h'))
      after (failed e, h') first more = tt
      after (panicked m, h') first more = tt
