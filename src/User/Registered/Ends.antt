-- ===== src/User/Registered/Ends.antt =====
-- What a registration and a finalizer that succeed leave on the servers.
use v2ray_operator.Prelude.{
  String, Bool, true, false, none, some, List, [], map, ◌≡◌, if◌then◌else◌, arith,
}
use v2ray_operator.Api.Core.{Service}
use v2ray_operator.Api.User.{V2rayUser}
use v2ray_operator.Cluster.Effect.{Outcome, done, failed, panicked, ◌>>=◌}
use v2ray_operator.Cluster.Requests.{Account, InboundOperation, add_user, remove_user, History}
use v2ray_operator.Cluster.Client.{record_event}
use v2ray_operator.Cluster.Env.{Env}
use v2ray_operator.User.Server.{account_of, protocol_user}
use v2ray_operator.User.Rollback.{Served, deferred}
use v2ray_operator.User.Add.{NodeMap, Added, add_to_svc, add_account, add_user_to_v2ray_svc_list}
use v2ray_operator.User.Add.Fine.{IfFine, Stores, finish-IfFine}
use v2ray_operator.User.Add.Atomic.{same, map-same}
use v2ray_operator.User.Finalize.{
  infos_of, announce, remove_account, do_finalizer_operations_for_v2ray_user,
}
use v2ray_operator.User.Finalize.Atomic.{StableServices, svc_of}
use v2ray_operator.User.Registered.{registered, Honest, DoneWith}
use v2ray_operator.User.Registered.Loop.{
  one_concerns, ServedWith, add_to_svc-DoneWith, remove_from_svc-DoneWith, serve_each-ServedWith,
}

module _ (E : Env) (start : Bool) (addr tag email : String) where
  Stores-state :
      (cr : V2rayUser) (b : Bool) (r : Served NodeMap)
      → ServedWith E start addr tag email b r
      → Stores E cr (λ _ h. registered E start addr tag email h ≡ b) r
  Stores-state cr b (done nodes, served, h) now = λ user answer. now
  Stores-state cr b (failed e, served, h) now = tt
  Stores-state cr b (panicked m, served, h) now = tt

  add_user-IfFine :
      Honest E start addr tag email
      → (cr : V2rayUser) {account : Account} (svcs : List Service) (h : History)
      → account_of cr.spec.inbound_tag cr.spec.user ≡ some account
      → IfFine
          (λ _ h'. registered E start addr tag email h' ≡ (
            if one_concerns E start addr tag email cr.spec.inbound_tag
              (add_user (protocol_user cr.spec.user account))
              svcs
            then true
            else registered E start addr tag email h))
          (add_user_to_v2ray_svc_list E cr svcs h)
  unfolding add_user_to_v2ray_svc_list add_account
  add_user-IfFine honest cr {account} svcs h known =
      rw (known, add_user_to_v2ray_svc_list)
        (finish-IfFine E cr _ _ _ _ _ (
          Stores-state cr _ _ (
            rw map-same at (
              serve_each-ServedWith E start addr tag email cr.spec.inbound_tag
                (add_user (protocol_user cr.spec.user account)) same
                (add_to_svc E cr.spec.inbound_tag (protocol_user cr.spec.user account))
                (λ svc nodes h.
                  add_to_svc-DoneWith E start addr tag email cr.spec.inbound_tag
                    (protocol_user cr.spec.user account) svc nodes h honest)
                svcs [] [] h))))

  deferred-DoneWith :
      (t : String) (op : InboundOperation) (b : Bool) (r : Served (Unit {0}))
      → ServedWith E start addr tag email b r
      → DoneWith E start addr tag email b (deferred E t op r)
  unfolding deferred
  deferred-DoneWith t op b (done u, served, h) now = now
  deferred-DoneWith t op b (failed e, served, h) now = ground arith
  deferred-DoneWith t op b (panicked m, served, h) now = ground arith

  announce-DoneWith :
      (cr : V2rayUser) (b : Bool) (r : Outcome (Unit {0}) × History)
      → DoneWith E start addr tag email b r
      → DoneWith E start addr tag email b (announce E cr r.0 r.1)
  unfolding announce record_event ◌>>=◌
  announce-DoneWith cr b (done u, h) now = now
  announce-DoneWith cr b (failed e, h) now = tt
  announce-DoneWith cr b (panicked m, h) now = tt

  finalizer-DoneWith :
      Honest E start addr tag email
      → (find : String → Service) → StableServices E find
      → (cr : V2rayUser) {account : Account} (h : History)
      → account_of cr.spec.inbound_tag cr.spec.user ≡ some account
      → DoneWith E start addr tag email
          (if one_concerns E start addr tag email cr.spec.inbound_tag
              (remove_user cr.spec.user.email)
              (map (svc_of E find) (infos_of cr.spec.node_list))
            then false
            else registered E start addr tag email h)
          (do_finalizer_operations_for_v2ray_user E cr h)
  unfolding do_finalizer_operations_for_v2ray_user remove_account
  finalizer-DoneWith honest find stable cr {account} h known =
      rw (known, do_finalizer_operations_for_v2ray_user)
        (announce-DoneWith cr _ _ (
          deferred-DoneWith _ _ _ _ (
            serve_each-ServedWith E start addr tag email cr.spec.inbound_tag
              (remove_user cr.spec.user.email) (svc_of E find) _
              (λ info u h.
                remove_from_svc-DoneWith E start addr tag email find stable _ _ info u h honest)
              (infos_of cr.spec.node_list) tt [] h)))

-- For any server, inbound and user, on servers that say of a user that exists only if it does: after
-- a registration that reports no error, with a known inbound tag, the user is registered exactly if
-- the server is that of an elected service, the inbound and the user are those of the resource, or
-- the user was registered before.
pub add_user-registered :
    (E : Env) (start : Bool) (addr tag email : String)
    → Honest E start addr tag email
    → (cr : V2rayUser) (svcs : List Service) (h : History) {account : Account} {added : Added}
      {h' : History}
    → account_of cr.spec.inbound_tag cr.spec.user ≡ some account
    → add_user_to_v2ray_svc_list E cr svcs h ≡ (done added, h')
    → added.error ≡ none
    → registered E start addr tag email h' ≡ (
        if one_concerns E start addr tag email cr.spec.inbound_tag
          (add_user (protocol_user cr.spec.user account))
          svcs
        then true
        else registered E start addr tag email h)
add_user-registered E start addr tag email honest cr svcs h {account} {added} {h'} known ran fine =
    let after : IfFine
        (λ _ h'. registered E start addr tag email h' ≡ (
          if one_concerns E start addr tag email cr.spec.inbound_tag
            (add_user (protocol_user cr.spec.user account)) svcs
          then true
          else registered E start addr tag email h))
        (done added, h') =
      rw ran at (add_user-IfFine E start addr tag email honest cr svcs h known) in
    after fine

-- The same of finalizer operations that return without an error, for services that keep their names:
-- the user is registered afterwards exactly if it was before and it is not one that the node list
-- names the server of, for the inbound and the user of the resource.
pub finalizer-unregistered :
    (E : Env) (start : Bool) (addr tag email : String)
    → Honest E start addr tag email
    → (find : String → Service) → StableServices E find
    → (cr : V2rayUser) (h : History) {account : Account} {h' : History}
    → account_of cr.spec.inbound_tag cr.spec.user ≡ some account
    → do_finalizer_operations_for_v2ray_user E cr h ≡ (done tt, h')
    → registered E start addr tag email h' ≡ (
        if one_concerns E start addr tag email cr.spec.inbound_tag
          (remove_user cr.spec.user.email)
          (map (svc_of E find) (infos_of cr.spec.node_list))
        then false
        else registered E start addr tag email h)
finalizer-unregistered E start addr tag email honest find stable cr h known ran =
    rw ran at (finalizer-DoneWith E start addr tag email honest find stable cr h known)
