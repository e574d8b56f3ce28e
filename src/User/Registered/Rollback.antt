-- ===== src/User/Registered/Rollback.antt =====
-- What the rollback of a failed registration leaves on the servers.
use v2ray_operator.Prelude.{
  String, Bool, true, false, some, List, [], ◌∷◌, ◌++◌, ◌≡◌, refl, ◌∙◌, if◌then◌else◌, arith,
  Bool-cases, inl, inr,
}
use v2ray_operator.Api.Core.{Service}
use v2ray_operator.Api.User.{V2rayUser}
use v2ray_operator.Cluster.Effect.{Error, ok, done}
use v2ray_operator.Cluster.Requests.{Account, add_user, remove_user, Call, History}
use v2ray_operator.Cluster.Env.{Env}
use v2ray_operator.Cluster.Trace.{alters}
use mathlib.Core.List.{append_assoc}
use v2ray_operator.User.Server.{account_of, protocol_user, svc_addr}
use v2ray_operator.User.Rollback.Ended.{RolledBack}
use v2ray_operator.User.Rollback.Exact.{call_at, calls_onto}
use v2ray_operator.User.Add.{Added, add_user_to_v2ray_svc_list}
use v2ray_operator.User.Add.Atomic.{same, map-same, add_user-rolls_back}
use v2ray_operator.User.Registered.{concerns, registered}
use v2ray_operator.User.Registered.Loop.{one_concerns, one_concerns-elected}

-- Every removal of a user is accepted.
abbrev pub AcceptsRemovals : Env → Type 0
AcceptsRemovals E =
    (h : History) (a t email : String) → E.alter_inbound h a t (remove_user email) ≡ ok tt

module _ (E : Env) (start : Bool) (addr tag email : String) where
  -- The latest call of the list that is about the user is a removal.
  abbrev removed_last : List Call → Bool
  removed_last [] = false
  removed_last (Call.alter_inbound a t (remove_user m) ∷ cs) =
      let rest = removed_last cs in
      if concerns E start addr tag email a t (remove_user m) then true else rest
  removed_last (Call.alter_inbound a t (add_user u) ∷ cs) =
      let rest = removed_last cs in
      if concerns E start addr tag email a t (add_user u) then false else rest
  removed_last (_ ∷ cs) = removed_last cs

  removed_last-registered :
      AcceptsRemovals E
      → (h : History) → removed_last (alters h) ≡ true
      → registered E start addr tag email h ≡ false
  removed_last-registered accepts [] e = absurd (ground arith)
  removed_last-registered accepts (Call.alter_inbound a t (remove_user m) ∷ h) e =
      ground (arith, accepts h a t m, removed_last-registered accepts h)
  removed_last-registered accepts (Call.alter_inbound a t (add_user u) ∷ h) e =
      ground (arith, removed_last-registered accepts h)
  removed_last-registered accepts (_ ∷ h) e = removed_last-registered accepts h e

  removed_last-elsewhere :
      (svcs : List Service) (acc : List Call)
      → one_concerns E start addr tag email tag (remove_user email) svcs ≡ false
      → removed_last (calls_onto E tag (remove_user email) svcs acc) ≡ removed_last acc
  removed_last-elsewhere [] acc e = refl
  removed_last-elsewhere (svc ∷ svcs) acc e =
      ground (arith, removed_last-elsewhere svcs (call_at E tag (remove_user email) svc ∷ acc))

  removed_last-here :
      (svcs : List Service) (acc : List Call)
      → one_concerns E start addr tag email tag (remove_user email) svcs ≡ true
      → removed_last (calls_onto E tag (remove_user email) svcs acc) ≡ true
  removed_last-here [] acc e = absurd (ground arith)
  removed_last-here (svc ∷ svcs) acc e =
      elim (Bool-cases (one_concerns E start addr tag email tag (remove_user email) svcs)) [
        | inl later ↦ removed_last-here svcs _ later
        | inr never ↦ removed_last-elsewhere svcs _ never ∙ ground arith
      ]

-- The user is registered at none of the servers.
abbrev pub AllUnregistered : Env → Bool → String → String → History → List Service → Type 0
AllUnregistered E start tag email h [] = Unit
AllUnregistered E start tag email h (svc ∷ svcs) =
    (registered E start (svc_addr E svc) tag email h ≡ false)
    × AllUnregistered E start tag email h svcs

module _ (E : Env) (start : Bool) (tag email : String) (accepts : AcceptsRemovals E) where
  all_unregistered :
      (h : History) (acc : List Call) (earlier svcs : List Service)
      → alters h ≡ calls_onto E tag (remove_user email) (earlier ++ svcs) acc
      → AllUnregistered E start tag email h svcs
  all_unregistered h acc earlier [] e = tt
  all_unregistered h acc earlier (svc ∷ svcs) e = (
    removed_last-registered E start (svc_addr E svc) tag email accepts h (
        rw e (
          removed_last-here E start (svc_addr E svc) tag email (earlier ++ svc ∷ svcs) acc (
            one_concerns-elected E start (svc_addr E svc) tag email (remove_user email) earlier svc
              svcs refl refl))),
    all_unregistered h acc (earlier ++ svc ∷ []) svcs (rw (append_assoc earlier (svc ∷ []) svcs) e),
  )

-- Where every removal is accepted: after a registration that reports an error, with a known inbound
-- tag, the user is registered for the inbound at the server of no service that had been served, the
-- services where the user was registered before the run included.
pub failed_registration-unregisters :
    (E : Env) (start : Bool)
    → AcceptsRemovals E
    → (cr : V2rayUser) (svcs : List Service) (h : History) {account : Account} {added : Added}
      {h' : History} {e : Error}
    → account_of cr.spec.inbound_tag cr.spec.user ≡ some account
    → add_user_to_v2ray_svc_list E cr svcs h ≡ (done added, h')
    → added.error ≡ some e
    → (r : RolledBack E cr.spec.inbound_tag
        (add_user (protocol_user cr.spec.user account))
        (remove_user cr.spec.user.email)
        same
        svcs
        (alters h)
        (alters h'))
      × AllUnregistered E start cr.spec.inbound_tag cr.spec.user.email h' r.finished
failed_registration-unregisters E start accepts cr svcs h {account} {added} {h'} known ran wrong =
    let r = add_user-rolls_back E cr svcs h known ran wrong in
    (
      r,
      all_unregistered E start cr.spec.inbound_tag cr.spec.user.email accepts h' _ [] r.finished
          (rw map-same at r.calls),
    )
